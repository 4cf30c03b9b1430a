-- ===== src/Tests/Lists.antt =====
-- A list of util/mcl_list.c with two nodes.
use mcl.Base.{refl, true, ◌||◌, none, some, [], ◌∷◌, Returns, ◌==◌, if◌then◌else◌, arith}
use mcl.Heap.{Heap}
use mcl.Heap.Chain.{Nodes}
use mcl.LinkedList.{LinkedList, insert, list_del, destroy}
use mcl.LinkedList.Ring.{IsList}
use mcl.LinkedList.Insert.{Inserts, insert-Inserts}
use mcl.LinkedList.Freeing.{wants}
use mcl.LinkedList.Delete.{Removes, list_del-Removes}
use mcl.LinkedList.Destroy.{Destroys, destroy-Destroys}

-- The head is at 1; the nodes at 2 and 3 have the data 20 and 30.
abbrev pub ring : Heap
ring = record {
  live = λ p. p == 1 || (p == 2) || (p == 3);
  next = λ p. if p == 1 then some 2 else if p == 2 then some 3 else if p == 3 then some 1 else none;
  prev = λ p. if p == 1 then some 3 else if p == 2 then some 1 else if p == 3 then some 2 else none;
  item = λ p. if p == 2 then some 20 else if p == 3 then some 30 else none;
}

abbrev pub two : LinkedList
two = record { entries = 1; list_sz = 2; erase_fn = 0 }

abbrev pub nodes : Nodes
nodes = (2, 20) ∷ (3, 30) ∷ []

pub ring-IsList : IsList ring two nodes
ring-IsList = record {
  chain = (
    record { from = refl; to = refl; next = refl; prev = refl },
    refl,
    (
      record { from = refl; to = refl; next = refl; prev = refl },
      refl,
      record { from = refl; to = refl; next = refl; prev = refl },
    ),
  );
  apart = (refl, refl, refl, refl, refl, (refl, refl, refl, refl, refl, tt));
  size = refl;
}

insert-Inserts_example : Returns (insert 4 40 two ring) (Inserts ring two nodes 4 ((4, 40) ∷ nodes))
insert-Inserts_example = insert-Inserts ring-IsList 4 40 refl refl (omega arith)

-- Deletes the second node, and frees its data by the function at 7.
list_del-Removes_example :
    Returns (list_del 3 30 two true none 7 ring) (Removes ring two nodes (wants none 30) true 7)
list_del-Removes_example =
    list_del-Removes 30 true none 7 3 ring two nodes ring-IsList (omega arith)

destroy-Destroys_example : Returns (destroy 3 two 7 ring) (Destroys ring two nodes 7)
destroy-Destroys_example = destroy-Destroys 7 3 ring two nodes ring-IsList (omega arith)
