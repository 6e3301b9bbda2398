-- ===== src/Broker/Wire/RoundTrip.antt =====
-- What one side writes the other side's parser reads back.
use slopmud.Prelude.{
  ℕ, zero, suc, ◌+◌, ◌^◌, ◌≤◌, ◌<◌, min, ◌≡◌, refl, ap, ap₂, subst, inl, inr, Bool, true, false,
  Option, none, some, List, [], ◌∷◌, ◌++◌, arith, leb, if◌then◌else◌, Bool-cases, nat_eq, list_eq,
  length, take, length-append, length-take,
}
use native.Mathlib.Nat.{add_assoc}
use slopmud.Prelude.Bytes.{to_be_bytes, from_be_bytes-to_be_bytes}
use slopmud.Mudproto.{ok, index, require}
use slopmud.Mudproto.Session.{SessionId}
use slopmud.Mudproto.Cursor.{At, index-At, next, slice-At, skip, slice_from-At, require-At}
use slopmud.Mudproto.Shard.{
  Build, ShardReq, attach, has_flag, parse_auth, parse_token, parse_build, parse_attach,
}
use slopmud.Broker.Wire.{short_token, attach_auth}

-- What arrives of a token.
abbrev pub clipped : List ℕ → List ℕ
clipped s = take 255 s

take_least : (n : ℕ) (s : List ℕ) → take (min (length s) n) s ≡ take n s
take_least zero s = ap (λ k. take k s) nothing
  where
    nothing : min (length s) 0 ≡ 0
    nothing = omega arith
take_least (suc n) [] = rw nothing refl
  where
    nothing : min 0 (suc n) ≡ 0
    nothing = omega arith
take_least (suc n) (x ∷ s) = rw later (ap (λ r. x ∷ r) (take_least n s))
  where
    later : min (suc (length s)) (suc n) ≡ suc (min (length s) n)
    later = omega arith

short_token-clipped : (s : List ℕ) → short_token s ≡ length (clipped s) ∷ clipped s
unfolding short_token
short_token-clipped s = ap₂ ◌∷◌ (omega (arith, length-take 255 s)) (take_least 255 s)

token-At :
    (p : List ℕ) (i more : ℕ) (t rest : List ℕ)
    → At p i (length t ∷ t ++ rest)
    → more ≤ length rest
    → (parse_token p i more ≡ ok (t, i + 1 + length t)) × At p (i + 1 + length t) rest
unfolding parse_token
token-At p i more t rest a h = (
  rw (
    index-At a,
    add_assoc (i + 1) (length t) more,
    require-At (length t + more) (next a) (omega (arith, length-append t rest)),
    slice-At t rest (next a),
  ),
  skip t rest (next a),
)

clip :
    {p : List ℕ} {i : ℕ} (t rest : List ℕ)
    → At p i (short_token t ++ rest)
    → At p i (length (clipped t) ∷ clipped t ++ rest)
clip {p} {i} t rest h = subst (λ k. At p i (k ++ rest)) (short_token-clipped t) h

abbrev clipped_build : List ℕ → List ℕ → List ℕ → List ℕ → Build
clipped_build race class sex pronouns = record {
  race = some (clipped race);
  class = some (clipped class);
  sex = some (clipped sex);
  pronouns = some (clipped pronouns);
}

abbrev tokens : List ℕ → List ℕ → List ℕ → List ℕ → List ℕ → List ℕ
tokens race class sex pronouns name =
    short_token race ++ (short_token class ++ (short_token sex ++ (short_token pronouns ++ name)))

build-At :
    (p : List ℕ) (i : ℕ) (race class sex pronouns name : List ℕ)
    → At p i (tokens race class sex pronouns name)
    → (j : ℕ) × (parse_build p i true ≡ ok (clipped_build race class sex pronouns, j)) × At p j name
unfolding parse_build short_token
build-At p i race class sex pronouns name a =
    let after_sex : List ℕ = short_token pronouns ++ name in
    let after_class : List ℕ = short_token sex ++ after_sex in
    let after_race : List ℕ = short_token class ++ after_class in
    let (r, a1) = token-At p i 1 (clipped race) after_race (clip race after_race a) (omega arith) in
    let (c, a2) =
      token-At p _ 1 (clipped class) after_class (clip class after_class a1) (omega arith) in
    let (s, a3) = token-At p _ 1 (clipped sex) after_sex (clip sex after_sex a2) (omega arith) in
    let (t, a4) = token-At p _ 0 (clipped pronouns) name (clip pronouns name a3) (omega arith) in
    (_, rw (require-At 1 a (omega arith), r, c, s, t) refl, a4)

auth-At :
    (p : List ℕ) (i : ℕ) (a rest : List ℕ)
    → length a < 256 ^ 2
    → At p i (to_be_bytes 2 (length a) ++ a ++ rest)
    → (parse_auth p i true ≡ ok (some a, i + 2 + length a)) × At p (i + 2 + length a) rest
unfolding parse_auth to_be_bytes
auth-At p i a rest small at =
    let at2 : At p (i + 2) (a ++ rest) =
      subst (λ k. At p k (a ++ rest)) (add_assoc i 1 1) (next (next at)) in
    (
      rw
          (
            require-At 2 at (omega arith),
            index-At at,
            index-At (next at),
            from_be_bytes-to_be_bytes 2 (length a) small,
            require-At (length a) at2 (omega (arith, length-append a rest)),
            slice-At a rest at2,
          )
          refl,
      skip a rest at2,
    )

-- What arrives of the auth blob: nothing, if its length does not fit 16 bits.
abbrev pub sent_auth : Option (List ℕ) → Option (List ℕ)
sent_auth none = none
sent_auth (some a) = if leb (length a) 0xffff then some a else none

-- Behind the flags: the blob if its flag is set, the tokens and the name.
attach-At :
    (p : List ℕ) (session : SessionId) (flags : ℕ) (auth : Option (List ℕ)) (j : ℕ)
    (race class sex pronouns name : List ℕ)
    → index p 17 ≡ ok flags
    → require p 18 ≡ ok tt
    → parse_auth p 18 (has_flag flags 0x02) ≡ ok (auth, j)
    → At p j (tokens race class sex pronouns name)
    → has_flag flags 0x04 ≡ true
    → parse_attach p session
      ≡ ok (
          attach (record {
            session = session;
            is_bot = has_flag flags 0x01;
            auth = auth;
            build = clipped_build race class sex pronouns;
            name = name;
          }))
unfolding parse_attach
attach-At p session flags auth j race class sex pronouns name f r a rest build =
    let (k, b, end) = build-At p j race class sex pronouns name rest in
    rw (r, f, a, build, b, slice_from-At end) refl

abbrev pub Sent :
    SessionId → Bool → Option (List ℕ) → List ℕ → List ℕ → List ℕ → List ℕ → List ℕ → ShardReq
Sent session is_bot auth race class sex pronouns name = attach (record {
  session = session;
  is_bot = is_bot;
  auth = sent_auth auth;
  build = clipped_build race class sex pronouns;
  name = name;
})

parse_auth-false : (p : List ℕ) (i : ℕ) → parse_auth p i false ≡ ok (none, i)
unfolding parse_auth
parse_auth-false p i = refl

abbrev flag_of : Bool → ℕ
flag_of is_bot = if is_bot then 5 else 4

-- The body of a request without a blob, or with one that was dropped.
bare-At :
    (p : List ℕ) (session : SessionId) (is_bot : Bool) (race class sex pronouns name : List ℕ)
    → At p 17 (flag_of is_bot ∷ tokens race class sex pronouns name)
    → parse_attach p session ≡ ok (Sent session is_bot none race class sex pronouns name)
bare-At p session true race class sex pronouns name a =
    attach-At p session 5 none 18 race class sex pronouns name (index-At a)
      (require-At 1 a (omega arith)) (parse_auth-false p 18) (next a) refl
bare-At p session false race class sex pronouns name a =
    attach-At p session 4 none 18 race class sex pronouns name (index-At a)
      (require-At 1 a (omega arith)) (parse_auth-false p 18) (next a) refl

-- The body of a request with a blob of at most 65535 bytes.
blob-At :
    (p : List ℕ) (session : SessionId) (is_bot : Bool) (auth race class sex pronouns name : List ℕ)
    → length auth < 256 ^ 2
    → At p 17 (
        (flag_of is_bot + 2) ∷ to_be_bytes 2 (length auth)
        ++ auth
        ++ tokens race class sex pronouns name)
    → parse_attach p session
      ≡ ok (
          attach (record {
            session = session;
            is_bot = is_bot;
            auth = some auth;
            build = clipped_build race class sex pronouns;
            name = name;
          }))
blob-At p session true auth race class sex pronouns name small a =
    let (q, b) = auth-At p 18 auth (tokens race class sex pronouns name) small (next a) in
    attach-At p session 7 (some auth) _ race class sex pronouns name (index-At a)
      (require-At 1 a (omega arith)) q b refl
blob-At p session false auth race class sex pronouns name small a =
    let (q, b) = auth-At p 18 auth (tokens race class sex pronouns name) small (next a) in
    attach-At p session 6 (some auth) _ race class sex pronouns name (index-At a)
      (require-At 1 a (omega arith)) q b refl

attach_auth-none : (is_bot : Bool) → attach_auth is_bot none ≡ flag_of is_bot ∷ []
unfolding attach_auth
attach_auth-none true = refl
attach_auth-none false = refl

attach_auth-small :
    (is_bot : Bool) (a : List ℕ)
    → leb (length a) 0xffff ≡ true
    → attach_auth is_bot (some a) ≡ (flag_of is_bot + 2) ∷ to_be_bytes 2 (length a) ++ a
unfolding attach_auth
attach_auth-small true a e = rw (e, attach_auth)
attach_auth-small false a e = rw (e, attach_auth)

attach_auth-large :
    (is_bot : Bool) (a : List ℕ)
    → leb (length a) 0xffff ≡ false
    → attach_auth is_bot (some a) ≡ flag_of is_bot ∷ []
unfolding attach_auth
attach_auth-large true a e = rw (e, attach_auth)
attach_auth-large false a e = rw (e, attach_auth)

pub body-At :
    (p : List ℕ) (session : SessionId) (is_bot : Bool) (auth : Option (List ℕ))
    (race class sex pronouns name : List ℕ)
    → At p 17 (attach_auth is_bot auth ++ tokens race class sex pronouns name)
    → parse_attach p session ≡ ok (Sent session is_bot auth race class sex pronouns name)
body-At p session is_bot none race class sex pronouns name a =
    bare-At p session is_bot race class sex pronouns name (rw (attach_auth-none is_bot) at a)
body-At p session is_bot (some auth) race class sex pronouns name a =
    elim (Bool-cases (leb (length auth) 0xffff)) [
      | inl e ↦ rw e (
          blob-At p session is_bot auth race class sex pronouns name (ground arith)
            (rw (attach_auth-small is_bot auth e) at a))
      | inr e ↦ rw e (
          bare-At p session is_bot race class sex pronouns name
            (rw (attach_auth-large is_bot auth e) at a))
    ]
