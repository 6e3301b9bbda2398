-- ===== src/Mudproto/Shard/Totality.antt =====
-- No payload makes a parser panic.
use slopmud.Prelude.{
  ℕ, zero, suc, ◌+◌, ◌≤◌, ◌<◌, ◌≢◌, inl, inr, Bool, true, false, List, [], ◌∷◌, arith, ltb,
  Bool-cases, nat_eq, list_eq, length,
}
use slopmud.Prelude.Bytes.{from_be_bytes}
use slopmud.Mudproto.{Parsed, ok, err, panic, index, slice, slice_from, require, ◌>>=◌}
use slopmud.Mudproto.Session.{SessionId, session_from_be_bytes}
use slopmud.Mudproto.Shard.{
  parse_auth, parse_token, parse_build, has_flag, parse_attach, req_of, parse_req, resp_of,
  parse_resp,
}
use slopmud.Mudproto.Chat

-- `m` does not panic, and what it returns satisfies `P`.
abbrev pub Ensures {ℓ} : {A : Type ℓ} → (A → Type 0) → Parsed A → Type 0
Ensures P (ok a) = P a
Ensures P (err e) = Unit
Ensures P panic = ⊥

Ensures-bind {ℓ κ} :
    {A : Type ℓ} {B : Type κ} (P : A → Type 0) (Q : B → Type 0) (m : Parsed A) (f : A → Parsed B)
    → Ensures P m
    → ((a : A) → P a → Ensures Q (f a))
    → Ensures Q (m >>= f)
Ensures-bind P Q (ok a) f h k = k a h
Ensures-bind P Q (err e) f h k = tt
Ensures-bind P Q panic f h k = absurd h

Ensures-ne-panic {ℓ} : {A : Type ℓ} (P : A → Type 0) (m : Parsed A) → Ensures P m → m ≢ panic
Ensures-ne-panic P (ok a) h e = cc
Ensures-ne-panic P (err x) h e = cc
Ensures-ne-panic P panic h e = absurd h

abbrev Any {ℓ} : {A : Type ℓ} → A → Type 0
Any a = Unit

index-Ensures : (p : List ℕ) (i : ℕ) → i < length p → Ensures Any (index p i)
unfolding index
index-Ensures [] i h = absurd (omega arith)
index-Ensures (x ∷ p) zero h = tt
index-Ensures (x ∷ p) (suc i) h = index-Ensures p i (omega arith)

slice-Ensures : (p : List ℕ) (i n : ℕ) → i + n ≤ length p → Ensures Any (slice p i (i + n))
unfolding slice
slice-Ensures p i n h = ground arith

slice_from-Ensures : (p : List ℕ) (i : ℕ) → i ≤ length p → Ensures Any (slice_from p i)
unfolding slice_from
slice_from-Ensures p i h = ground arith

require-Ensures : (p : List ℕ) (n : ℕ) → Ensures (λ _. n ≤ length p) (require p n)
unfolding require
require-Ensures p n = ground arith

-- The cursor stays inside the payload, with `more` bytes behind it.
abbrev Leaves {ℓ} : {A : Type ℓ} → List ℕ → ℕ → A × ℕ → Type 0
Leaves p more r = r.1 + more ≤ length p

parse_token-Ensures :
    (p : List ℕ) (i more : ℕ) → i < length p → Ensures (Leaves p more) (parse_token p i more)
unfolding parse_token
parse_token-Ensures p i more h =
    Ensures-bind Any (Leaves p more) (index p i) _ (index-Ensures p i h) λ n _.
      Ensures-bind (λ _. i + 1 + n + more ≤ length p) (Leaves p more) (require p (i + 1 + n + more))
        _ (require-Ensures p (i + 1 + n + more))
        λ _ fits.
          Ensures-bind Any (Leaves p more) (slice p (i + 1) (i + 1 + n)) _
            (slice-Ensures p (i + 1) n (omega arith)) λ t _. fits

parse_auth-Ensures :
    (p : List ℕ) (i : ℕ) (has : Bool) → i ≤ length p → Ensures (Leaves p 0) (parse_auth p i has)
unfolding parse_auth
parse_auth-Ensures p i false h = omega arith
parse_auth-Ensures p i true h =
    Ensures-bind (λ _. i + 2 ≤ length p) (Leaves p 0) (require p (i + 2)) _
      (require-Ensures p (i + 2))
      λ _ fits.
        Ensures-bind Any (Leaves p 0) (index p i) _ (index-Ensures p i (omega arith)) λ b0 _.
          Ensures-bind Any (Leaves p 0) (index p (i + 1)) _ (index-Ensures p (i + 1) (omega arith))
            λ b1 _.
              let n = from_be_bytes (b0 ∷ b1 ∷ []) in
              Ensures-bind (λ _. i + 2 + n ≤ length p) (Leaves p 0) (require p (i + 2 + n)) _
                (require-Ensures p (i + 2 + n))
                λ _ all_fits.
                  Ensures-bind Any (Leaves p 0) (slice p (i + 2) (i + 2 + n)) _
                    (slice-Ensures p (i + 2) n all_fits) λ a _. omega arith

parse_build-Ensures :
    (p : List ℕ) (i : ℕ) (has : Bool) → i ≤ length p → Ensures (Leaves p 0) (parse_build p i has)
unfolding parse_build
parse_build-Ensures p i false h = omega arith
parse_build-Ensures p i true h =
    Ensures-bind (λ _. i + 1 ≤ length p) (Leaves p 0) (require p (i + 1)) _
      (require-Ensures p (i + 1))
      λ _ fits.
        Ensures-bind (Leaves p 1) (Leaves p 0) (parse_token p i 1) _
          (parse_token-Ensures p i 1 (omega arith))
          λ race r.
            Ensures-bind (Leaves p 1) (Leaves p 0) (parse_token p race.1 1) _
              (parse_token-Ensures p race.1 1 (omega arith))
              λ class c.
                Ensures-bind (Leaves p 1) (Leaves p 0) (parse_token p class.1 1) _
                  (parse_token-Ensures p class.1 1 (omega arith))
                  λ sex s.
                    Ensures-bind (Leaves p 0) (Leaves p 0) (parse_token p sex.1 0) _
                      (parse_token-Ensures p sex.1 0 (omega arith)) λ pronouns t. t

parse_attach-Ensures : (p : List ℕ) (session : SessionId) → Ensures Any (parse_attach p session)
unfolding parse_attach
parse_attach-Ensures p session =
    Ensures-bind (λ _. 1 + 16 + 1 ≤ length p) Any (require p (1 + 16 + 1)) _
      (require-Ensures p (1 + 16 + 1))
      λ _ fits.
        Ensures-bind Any Any (index p (1 + 16)) _ (index-Ensures p (1 + 16) (omega arith))
          λ flags _.
            Ensures-bind (Leaves p 0) Any (parse_auth p (1 + 16 + 1) (has_flag flags 0x02)) _
              (parse_auth-Ensures p (1 + 16 + 1) (has_flag flags 0x02) fits)
              λ auth a.
                Ensures-bind (Leaves p 0) Any (parse_build p auth.1 (has_flag flags 0x04)) _
                  (parse_build-Ensures p auth.1 (has_flag flags 0x04) (omega arith))
                  λ build b.
                    Ensures-bind Any Any (slice_from p build.1) _
                      (slice_from-Ensures p build.1 (omega arith)) λ name _. tt

req_of-Ensures :
    (p : List ℕ) (t : ℕ) (session : SessionId) → 17 ≤ length p → Ensures Any (req_of p t session)
unfolding req_of
req_of-Ensures p t session h =
    ground (arith, parse_attach-Ensures p session, slice_from-Ensures p (1 + 16) h)

resp_of-Ensures :
    (p : List ℕ) (t : ℕ) (session : SessionId) → 17 ≤ length p → Ensures Any (resp_of p t session)
unfolding resp_of
resp_of-Ensures p t session h = ground (arith, slice_from-Ensures p (1 + 16) h)

chat_req_of-Ensures :
    (p : List ℕ) (t : ℕ) (session : SessionId)
    → 17 ≤ length p
    → Ensures Any (Chat.req_of p t session)
unfolding Chat.req_of
chat_req_of-Ensures p t session h = ground (arith, slice_from-Ensures p (1 + 16) h)

-- What the parsers with a session id do once the length is checked.
header-Ensures {ℓ} :
    {A : Type ℓ} (p : List ℕ) (body : List ℕ → ℕ → SessionId → Parsed A)
    → 17 ≤ length p
    → ((t : ℕ) (session : SessionId) → Ensures Any (body p t session))
    → Ensures Any
        (index p 0 >>= λ t. slice p 1 (1 + 16) >>= λ sid. body p t (session_from_be_bytes sid))
header-Ensures p body h k =
    Ensures-bind Any Any (index p 0) _ (index-Ensures p 0 (omega arith)) λ t _.
      Ensures-bind Any Any (slice p 1 (1 + 16)) _ (slice-Ensures p 1 16 (omega arith))
        λ sid _. k t (session_from_be_bytes sid)

parse_req-Ensures : (p : List ℕ) → Ensures Any (parse_req p)
unfolding parse_req
parse_req-Ensures p = elim (Bool-cases (ltb (length p) 17)) [
  | inl short ↦ rw short tt
  | inr long ↦
      rw long (header-Ensures p req_of (ground arith) λ t s. req_of-Ensures p t s (ground arith))
]

parse_resp-Ensures : (p : List ℕ) → Ensures Any (parse_resp p)
unfolding parse_resp
parse_resp-Ensures p = elim (Bool-cases (ltb (length p) 17)) [
  | inl short ↦ rw short tt
  | inr long ↦
      rw long (header-Ensures p resp_of (ground arith) λ t s. resp_of-Ensures p t s (ground arith))
]

chat_parse_req-Ensures : (p : List ℕ) → Ensures Any (Chat.parse_req p)
unfolding Chat.parse_req
chat_parse_req-Ensures p = elim (Bool-cases (ltb (length p) 17)) [
  | inl short ↦ rw short tt
  | inr long ↦
      rw long (
        header-Ensures p Chat.req_of (ground arith) λ t s. chat_req_of-Ensures p t s (ground arith))
]

parse_event-Ensures : (p : List ℕ) → Ensures Any (Chat.parse_event p)
unfolding Chat.parse_event
parse_event-Ensures [] = tt
parse_event-Ensures (b ∷ p) = ground (arith, slice_from-Ensures (b ∷ p) 1 (omega arith))

-- No payload, however malformed, makes a parser of shard or chat messages index or slice out of
-- range.
pub parsers_never_panic :
    (p : List ℕ)
    → (parse_req p ≢ panic)
      × (parse_resp p ≢ panic)
      × (Chat.parse_req p ≢ panic)
      × (Chat.parse_event p ≢ panic)
parsers_never_panic p = (
  Ensures-ne-panic Any (parse_req p) (parse_req-Ensures p),
  Ensures-ne-panic Any (parse_resp p) (parse_resp-Ensures p),
  Ensures-ne-panic Any (Chat.parse_req p) (chat_parse_req-Ensures p),
  Ensures-ne-panic Any (Chat.parse_event p) (parse_event-Ensures p),
)
