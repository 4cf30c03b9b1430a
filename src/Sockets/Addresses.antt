-- ===== src/Sockets/Addresses.antt =====
-- The making of an address, `mcl_init_sockaddr` of net/mcl_net_raw.c. What the system's headers and
-- its C library give is a parameter.
use mcl.Base.{ℕ, Option, none, some, List, ℤ, if◌then◌else◌}
use mcl.Sockets.{is_positive}

-- `mcl_sockaddr`: the members of its `struct sockaddr_in`, and the length
pub record Sockaddr : Type 0 where
  pub sin_family : ℕ
  pub sin_port : ℕ
  pub sin_addr : ℕ
  pub sin_zero : ℕ → ℕ
  pub len : ℕ

-- `htons`; `inet_pton` for `AF_INET`, which returns a result and leaves the address, given the one
-- before; `INADDR_ANY`; `sizeof` of the `struct sockaddr_in`
pub record Inet : Type 0 where
  pub htons : ℕ → ℕ
  pub inet_pton : List ℕ → ℕ → ℤ × ℕ
  pub inaddr_any : ℕ
  pub size : ℕ

-- `MCL_SOCKADDR_IN` of a family and a port, with all of `sin_zero` zeroed
abbrev pub with_port : Inet → (port family : ℕ) → Sockaddr → Sockaddr
with_port inet port family a = record a {
  sin_family = family;
  sin_port = inet.htons port;
  sin_zero = λ i. 0;
}

-- The `ip` is `none` where it is NULL. Before a failure the family and the port are written.
unfoldable pub init_sockaddr : Inet → Option (List ℕ) → (port family : ℕ) → Sockaddr → ℕ × Sockaddr
init_sockaddr inet none port family a =
    (1, record (with_port inet port family a) { sin_addr = inet.inaddr_any; len = inet.size })
init_sockaddr inet (some ip) port family a =
    let b = with_port inet port family a in
    let (r, addr) = inet.inet_pton ip a.sin_addr in
    if is_positive r
    then (1, record b { sin_addr = addr; len = inet.size })
    else (0, record b { sin_addr = addr })
