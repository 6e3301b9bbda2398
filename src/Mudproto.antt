-- ===== src/Mudproto.antt =====
-- crates/mudproto: the messages between broker and shard. A parser indexes and slices its payload,
-- which panics out of range, so `panic` is an outcome of its own.
pub mod Session
pub mod Cursor
pub mod Chat
pub mod Shard
use Prim.Native.String.{String}
use slopmud.Prelude.{
  ℕ, zero, suc, ◌+◌, ◌-◌, ◌*◌, ◌/◌, ◌%◌, ◌^◌, ◌≤◌, ◌<◌, min, max, ◌≡◌, refl, sym, ap, ap₂, ◌∙◌,
  subst, ◌≢◌, ◌↔◌, ◌⊎◌, inl, inr, Bool, true, false, not, ◌&&◌, ◌||◌, Option, none, some, List, [],
  ◌∷◌, ◌++◌, map, append-nil, append_assoc, arith, ltb, leb, ◌==◌, if◌then◌else◌, ==_iff,
  Bool-cases, Option-cases, Eq, ◌=?◌, =?_iff, =?_refl, nat_eq, list_eq, list_beq, list_beq_iff,
  length, get_elem?, take, drop, is_empty, any, all, concat, All, length-append, take-append-drop,
  length-take, length-drop, take_front, drop_front, take_all, take_front_of, drop_front_of,
  take-append_left, take_past, drop_past, get_elem?-front, get_elem?-append_left, All-append,
  All-left,
}

pub data ProtoError : Type 0 where
  too_short : ℕ → ℕ → ProtoError
  unknown_type : ℕ → ProtoError
  malformed : String → ProtoError

pub data Parsed {ℓ} (A : Type ℓ) : Type ℓ where
  ok : A → Parsed A
  err : ProtoError → Parsed A
  panic : Parsed A

infixl 5 ◌>>=◌ ◌>>◌
abbrev pub ◌>>=◌ {ℓ κ} : {A : Type ℓ} {B : Type κ} → Parsed A → (A → Parsed B) → Parsed B
ok a >>= f = f a
err e >>= f = err e
panic >>= f = panic

abbrev pub ◌>>◌ {ℓ} : {B : Type ℓ} → Parsed (Unit {0}) → Parsed B → Parsed B
m >> k = m >>= λ _. k

-- `p[i]`.
unfoldable pub index : List ℕ → ℕ → Parsed ℕ
index p i = elim (get_elem? p i) [ some b ↦ ok b | none ↦ panic ]

-- `p.slice(i..j)`.
unfoldable pub slice : List ℕ → ℕ → ℕ → Parsed (List ℕ)
slice p i j = if leb i j && leb j (length p) then ok (take (j - i) (drop i p)) else panic

-- `p.slice(i..)`.
unfoldable pub slice_from : List ℕ → ℕ → Parsed (List ℕ)
slice_from p i = if leb i (length p) then ok (drop i p) else panic

-- `if p.len() < need { return Err(TooShort { need, got: p.len() }) }`.
unfoldable pub require : List ℕ → ℕ → Parsed (Unit {0})
require p need = if ltb (length p) need then err (too_short need (length p)) else ok tt
