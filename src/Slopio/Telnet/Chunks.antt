-- ===== src/Slopio/Telnet/Chunks.antt =====
-- How the bytes are cut into chunks does not matter, and what comes out is bounded by what goes in.
use slopmud.Prelude.{
  ℕ, ◌+◌, ◌≤◌, ◌≡◌, refl, Bool, true, false, List, [], ◌∷◌, ◌++◌, none, some, append-nil,
  append_assoc, arith, length, length-append,
}
use slopmud.Slopio.Telnet.{
  State, data_bytes, iac, negotiate, subneg, IacParser, Progress, refusal, step, feed, start, parse,
}

-- What was put out before stands in front of what a run puts out.
abbrev behind : List ℕ → List ℕ → Progress → Progress
behind out replies g = record g { out = out ++ g.out; replies = replies ++ g.replies }

step-behind :
    (refuse : Bool) (out replies : List ℕ) (g : Progress) (s : State) (b : ℕ)
    → step refuse (behind out replies g) s b ≡ behind out replies (step refuse g s b)
unfolding step
step-behind refuse out replies g data_bytes b = ground (arith, append_assoc out g.out (b ∷ []))
step-behind refuse out replies g iac b = ground (arith, append_assoc out g.out (255 ∷ []))
step-behind refuse out replies g (negotiate cmd) b =
    ground (arith, append_assoc replies g.replies (refusal refuse cmd b))
step-behind refuse out replies g (subneg none seen buf) b = refl
step-behind refuse out replies g (subneg (some opt) true buf) b = ground arith
step-behind refuse out replies g (subneg (some opt) false buf) b = ground arith

step-front :
    (refuse : Bool) (out replies : List ℕ) (g : Progress) (b : ℕ)
    → step refuse (behind out replies g) g.state b ≡ behind out replies (step refuse g g.state b)
step-front refuse out replies g b = step-behind refuse out replies g g.state b

feed-behind :
    (refuse : Bool) (out replies : List ℕ) (g : Progress) (xs : List ℕ)
    → feed refuse (behind out replies g) xs ≡ behind out replies (feed refuse g xs)
unfolding feed
feed-behind refuse out replies g [] = refl
feed-behind refuse out replies g (b ∷ xs) =
    rw (step-front refuse out replies g b)
      (feed-behind refuse out replies (step refuse g g.state b) xs)

feed-append :
    (refuse : Bool) (g : Progress) (xs ys : List ℕ)
    → feed refuse g (xs ++ ys) ≡ feed refuse (feed refuse g xs) ys
unfolding feed
feed-append refuse g [] ys = refl
feed-append refuse g (b ∷ xs) ys = feed-append refuse (step refuse g g.state b) xs ys

feed-start :
    (refuse : Bool) (g : Progress) (xs : List ℕ)
    → feed refuse g xs ≡ behind g.out g.replies (feed refuse (start g.state) xs)
feed-start refuse g xs =
    rw (append-nil, append-nil) at (feed-behind refuse g.out g.replies (start g.state) xs)

-- Where the bytes are cut does not matter: parsing two chunks one after the other leaves the parser,
-- the data and the replies of parsing them as one chunk.
pub parse-append :
    (p : IacParser) (xs ys : List ℕ)
    → let (p1, d1, r1) = parse p xs in
      let (p2, d2, r2) = parse p1 ys in parse p (xs ++ ys) ≡ (p2, d1 ++ d2, r1 ++ r2)
unfolding parse
parse-append p xs ys =
    rw (feed-append, feed-start p.refuse_negotiation (feed p.refuse_negotiation (start p.state) xs))
      refl

-- The bytes of a command that a state has taken and that may still come out.
pending : State → ℕ
pending data_bytes = 0
pending iac = 1
pending (negotiate cmd) = 2
pending (subneg opt seen buf) = 0

pending-le : (s : State) → pending s ≤ 2
unfolding pending
pending-le s = ground arith

pending-data_bytes : (s : State) → s ≡ data_bytes → pending s ≡ 0
unfolding pending
pending-data_bytes s e = ground arith

emitted : Progress → ℕ
unfolding pending
emitted g = length g.out + length g.replies + pending g.state

emitted-step :
    (refuse : Bool) (g : Progress) (s : State) (b : ℕ)
    → g.state ≡ s
    → emitted (step refuse g s b) ≤ emitted g + 1
unfolding emitted step
emitted-step refuse g data_bytes b e = ground (arith, length-append g.out (b ∷ []))
emitted-step refuse g iac b e = ground (arith, length-append g.out (255 ∷ []))
emitted-step refuse g (negotiate cmd) b e =
    ground (arith, length-append g.replies (refusal refuse cmd b))
emitted-step refuse g (subneg none seen buf) b e = ground arith
emitted-step refuse g (subneg (some opt) true buf) b e = ground arith
emitted-step refuse g (subneg (some opt) false buf) b e = ground arith

emitted-feed :
    (refuse : Bool) (g : Progress) (xs : List ℕ)
    → emitted (feed refuse g xs) ≤ emitted g + length xs
unfolding feed
emitted-feed refuse g [] = omega arith
emitted-feed refuse g (b ∷ xs) =
    omega (
      arith,
      emitted-step refuse g g.state b refl,
      emitted-feed refuse (step refuse g g.state b) xs,
    )

-- A peer gets no amplification: the data and the replies of a chunk are together at most two bytes
-- longer than the chunk, and no longer than the chunk for a parser between commands.
pub parse_bounded :
    (p : IacParser) (xs : List ℕ)
    → let (q, d, r) = parse p xs in
      (length d + length r ≤ length xs + 2)
      × (p.state ≡ data_bytes → length d + length r ≤ length xs)
unfolding parse emitted
parse_bounded p xs = ground (
  arith,
  emitted-feed p.refuse_negotiation (start p.state) xs,
  pending-le p.state,
  pending-data_bytes p.state,
)
