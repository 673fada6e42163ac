-- ===== src/Hosts/Laws.antt =====
-- The entries that `conn_hosts` of crates/rlibpq/src/hosts.rs makes.
use pgrust_drop.Prelude.{
  ℕ, zero, suc, ◌≤◌, Bool, true, false, List, [], ◌∷◌, Option, none, some, ◌==◌, if◌then◌else◌,
  length, Bytes, codes, All, is_nil, ◌≡◌, refl, sym, ◌∙◌, arith, ==_iff,
}
use pgrust_drop.ConnError.{ConnError, ok, err, bind-ok, ok_inj}
use pgrust_drop.ConnInfo.{ConnInfo, get, not_empty, or_else}
use pgrust_drop.Hosts.Split.{comma_separated, count_comma_separated_elems, comma_separated_cons}
use pgrust_drop.Hosts.{
  HostType, ConnHost, is_unixsock_path, vec_of, given_all, hostaddr_list, host_list, spread,
  port_list, present, named, classify, conn_host, slots, nconnhost_of, nconnhost, conn_hosts,
}

-- What each kind of entry has.
abbrev HasLocation : HostType → ConnHost → Type 0
HasLocation HostType.host_address h = present h.hostaddr ≡ true
HasLocation HostType.host_name h =
    (name : Bytes) × (h.host ≡ some name) × (is_nil name ≡ false) × (is_unixsock_path name ≡ false)
HasLocation HostType.unix_socket h =
    (path : Bytes) × (h.host ≡ some path) × (is_unixsock_path path ≡ true)

abbrev pub Reachable : ConnHost → Type 0
Reachable h = HasLocation h.kind h

named-Reachable :
    (hostaddr port : Option Bytes) (b : ℕ) (name : Bytes) (unix : Bool)
    → is_unixsock_path (b ∷ name) ≡ unix
    → Reachable (record {
      kind = (named unix (b ∷ name)).0;
      host = (named unix (b ∷ name)).1;
      hostaddr = hostaddr;
      port = port;
    })
named-Reachable hostaddr port b name true e = (b ∷ name, refl, e)
named-Reachable hostaddr port b name false e = (b ∷ name, refl, refl, e)

conn_host-Reachable : (hostaddr host port : Option Bytes) → Reachable (conn_host hostaddr host port)
unfolding conn_host classify
conn_host-Reachable (some (a ∷ addr)) host port = refl
conn_host-Reachable none none port = (codes "/tmp", refl, refl)
conn_host-Reachable none (some []) port = (codes "/tmp", refl, refl)
conn_host-Reachable none (some (b ∷ path)) port =
    named-Reachable none port b path (is_unixsock_path (b ∷ path)) refl
conn_host-Reachable (some []) none port = (codes "/tmp", refl, refl)
conn_host-Reachable (some []) (some []) port = (codes "/tmp", refl, refl)
conn_host-Reachable (some []) (some (b ∷ path)) port =
    named-Reachable (some []) port b path (is_unixsock_path (b ∷ path)) refl

slots-Reachable : (addrs hs ps : List (Option Bytes)) → All Reachable (slots addrs hs ps)
unfolding slots
slots-Reachable (a ∷ addrs) (h ∷ hs) (p ∷ ps) =
    (conn_host-Reachable a h p, slots-Reachable addrs hs ps)
slots-Reachable [] _ _ = tt
slots-Reachable (a ∷ addrs) [] _ = tt
slots-Reachable (a ∷ addrs) (h ∷ hs) [] = tt

length-slots :
    (n : ℕ) (addrs hs ps : List (Option Bytes))
    → length addrs ≡ n
    → length hs ≡ n
    → length ps ≡ n
    → length (slots addrs hs ps) ≡ n
unfolding slots
length-slots zero [] [] [] a h p = refl
length-slots (suc n) (a ∷ addrs) (h ∷ hs) (p ∷ ps) ea eh ep =
    omega (arith, length-slots n addrs hs ps (omega arith) (omega arith) (omega arith))
length-slots n _ _ _ ea eh ep = ground arith

length-vec_of : (n : ℕ) (v : Option Bytes) → length (vec_of n v) ≡ n
unfolding vec_of
length-vec_of zero v = refl
length-vec_of (suc n) v = omega (arith, length-vec_of n v)

length-given_all : (elems : List Bytes) → length (given_all elems) ≡ length elems
length-given_all [] = refl
length-given_all (e ∷ elems) = omega (arith, length-given_all elems)

length_checked :
    (t : Bool) (elems : List Bytes) (n : ℕ) (e : ConnError) {list : List (Option Bytes)}
    → (length elems == n) ≡ t
    → (if t then ok (given_all elems) else err e) ≡ ok list
    → length list ≡ n
length_checked true elems n e same h =
    rw (sym (ok_inj h)) (length-given_all elems ∙ (==_iff (length elems) n).0 same)
length_checked false elems n e differ h = absurd (ground arith)

length-host_list :
    (n : ℕ) (host : Option Bytes) {hosts : List (Option Bytes)}
    → host_list n host ≡ ok hosts
    → length hosts ≡ n
unfolding host_list
length-host_list n none h = rw (sym (ok_inj h)) (length-vec_of n none)
length-host_list n (some list) h =
    length_checked (length (comma_separated list) == n) (comma_separated list) n _ refl h

length-spread :
    (n : ℕ) (ports : List Bytes) {list : List (Option Bytes)}
    → spread n ports ≡ ok list
    → length list ≡ n
length-spread n [] h = length_checked (0 == n) [] n _ refl h
length-spread n (port ∷ []) h = rw (sym (ok_inj h)) (length-vec_of n (some port))
length-spread n (port ∷ next ∷ ports) h =
    length_checked (length (port ∷ next ∷ ports) == n) (port ∷ next ∷ ports) n _ refl h

length-port_list :
    (n : ℕ) (port : Option Bytes) {ports : List (Option Bytes)}
    → port_list n port ≡ ok ports
    → length ports ≡ n
unfolding port_list
length-port_list n none h = rw (sym (ok_inj h)) (length-vec_of n none)
length-port_list n (some list) h = length-spread n (comma_separated list) h

length-hostaddr_list :
    (hostaddr host : Option Bytes)
    → length (hostaddr_list (nconnhost_of (or_else hostaddr host)) hostaddr)
      ≡ nconnhost_of (or_else hostaddr host)
unfolding hostaddr_list count_comma_separated_elems
length-hostaddr_list none host = length-vec_of (nconnhost_of host) none
length-hostaddr_list (some list) host = length-given_all (comma_separated list)

nconnhost_positive : (given : Option Bytes) → 1 ≤ nconnhost_of given
unfolding count_comma_separated_elems
nconnhost_positive none = omega arith
nconnhost_positive (some list) = let (e, es, f) = comma_separated_cons list in rw f (omega arith)

-- An accepted host list has at least one entry and as many as hostaddr has elements, or host where
-- no hostaddr is given, and each entry has what its kind is reached by: a numeric address, a socket
-- directory or a name that is not one.
pub conn_hosts-Reachable :
    (conninfo : ConnInfo) {hosts : List ConnHost}
    → conn_hosts conninfo ≡ ok hosts
    → (1 ≤ length hosts) × (length hosts ≡ nconnhost conninfo) × All Reachable hosts
unfolding conn_hosts nconnhost
conn_hosts-Reachable conninfo {hosts} h =
    let hostaddr = not_empty (get conninfo (codes "hostaddr")) in
    let host = not_empty (get conninfo (codes "host")) in
    let port = not_empty (get conninfo (codes "port")) in
    let n = nconnhost_of (or_else hostaddr host) in
    bind-ok (host_list n host) _ h (λ named e h1. bind-ok (port_list n port) _ h1 (λ ports f h2.
      let count =
        length-slots n (hostaddr_list n hostaddr) named ports (length-hostaddr_list hostaddr host)
          (length-host_list n host e) (length-port_list n port f) in
      rw (sym (ok_inj h2)) (
        omega (arith, count, nconnhost_positive (or_else hostaddr host)),
        count,
        slots-Reachable (hostaddr_list n hostaddr) named ports,
      )))
