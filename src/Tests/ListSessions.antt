-- ===== src/Tests/ListSessions.antt =====
-- A session with a list of util/mcl_list.c.
use mcl.Base.{◌≡◌, refl, some, List, [], ◌∷◌, Returns, arith}
use mcl.Heap
use mcl.LinkedList
use mcl.LinkedList.Calls.{
  ListCall, insert, insert_tail, delete, size, call, session, spec_session, AreAllowed,
}
use mcl.LinkedList.Session.{data_of, list_session-spec_session}
use mcl.Tests.Lists.{ring, two, nodes, ring-IsList}

-- Insertions at both ends, a deletion from the middle, and the size. The address that the deletion
-- frees is used again.
abbrev calls : List ListCall
calls = insert 4 40 ∷ (delete 20 7 ∷ (insert_tail 2 50 ∷ (size ∷ [])))

calls-AreAllowed : AreAllowed 9 calls two ring
unfolding call LinkedList.insert LinkedList.insert_tail LinkedList.delete LinkedList.list_del
    LinkedList.del_loop LinkedList.handle_elem LinkedList.list_insert LinkedList.free_item
    LinkedList.size Heap.alloc Heap.free Heap.get_next Heap.get_prev Heap.get_item Heap.set_next
    Heap.set_prev Heap.set_item
calls-AreAllowed = ((refl, refl), (tt, ((refl, refl), (tt, tt))))

list_session-spec_session_example :
    Returns (session 9 7 calls two ring) (λ o. o.0 ≡ some (spec_session 7 calls (data_of nodes)))
list_session-spec_session_example =
    list_session-spec_session 9 7 calls ring two nodes ring-IsList (omega arith) calls-AreAllowed
