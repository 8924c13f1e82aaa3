-- ===== src/Cmd/ChangeInt.antt =====
-- `td_addchangeint`, `td_remchangeint` and `td_remove` of cmdhandler.c. The Exec list is a list of
-- its nodes from the head; a request is on it at most once.
use a4091_software.Base.{
  ℕ, ◌≡◌, ◌≢◌, refl, Bool, false, ◌||◌, Option, none, some, List, [], ◌∷◌, arith, ◌==◌,
  if◌then◌else◌,
}
use a4091_software.Base.Int.{ℤ, pos}
use a4091_software.Codes
use a4091_software.Periph.{ChangeInt, Periph}

-- NULL is no interrupt.
abbrev pub handler_of : ℕ → Option ℕ
handler_of data_addr = if data_addr == 0 then none else some data_addr

unfoldable pub td_addchangeint : ChangeInt → Periph → Periph × ℤ
td_addchangeint c periph = (record periph { changeintlist = c ∷ periph.changeintlist }, pos 0)

-- The walk stops at the request, which it unlinks, or at the list's end.
remove_node : ℕ → List ChangeInt → List ChangeInt
remove_node ior [] = []
remove_node ior (c ∷ cs) = if c.ior == ior then cs else c ∷ remove_node ior cs

-- The end of the list is a node, so the `io == NULL` behind the loop is never true: the result is
-- 0 on both paths.
unfoldable pub td_remchangeint : ℕ → Periph → Periph × ℤ
unfolding remove_node
td_remchangeint ior periph =
    (record periph { changeintlist = remove_node ior periph.changeintlist }, pos 0)

unfoldable pub td_remove : ℕ → Periph → Periph × ℤ
td_remove data_addr periph = (record periph { changeint = handler_of data_addr }, pos 0)

-- Whether a request waits on the list.
unfoldable pub is_listed : ℕ → List ChangeInt → Bool
is_listed ior [] = false
is_listed ior (c ∷ cs) = c.ior == ior || is_listed ior cs

remove_absent : (ior : ℕ) (cs : List ChangeInt) → is_listed ior cs ≡ false → remove_node ior cs ≡ cs
unfolding remove_node is_listed
remove_absent ior [] h = refl
remove_absent ior (c ∷ cs) h = ground (arith, remove_absent ior cs)

-- Removing a request right after it was added leaves the peripheral as it was, and both succeed.
pub td_remchangeint-add :
    (c : ChangeInt) (p : Periph)
    → (td_remchangeint c.ior (td_addchangeint c p).0 ≡ (p, pos 0))
      × ((td_addchangeint c p).1 ≡ pos 0)
unfolding td_remchangeint td_addchangeint
td_remchangeint-add c p = (ground arith, refl)

-- Removing a request that is not on the list changes nothing and is reported as a success, not as
-- IOERR_BADADDRESS.
pub td_remchangeint_absent :
    (ior : ℕ) (p : Periph)
    → is_listed ior p.changeintlist ≡ false
    → (td_remchangeint ior p ≡ (p, pos 0)) × ((td_remchangeint ior p).1 ≢ Codes.bad_address)
unfolding td_remchangeint
td_remchangeint_absent ior p h = (ground (arith, remove_absent ior p.changeintlist h), λ e. cc)
