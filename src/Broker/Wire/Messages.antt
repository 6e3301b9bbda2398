-- ===== src/Broker/Wire/Messages.antt =====
-- Whole messages: a header in front of a body, and a message in a frame.
use slopmud.Prelude.{
  ℕ, ◌+◌, ◌≤◌, ◌≡◌, refl, ap, ◌∙◌, subst, Bool, false, Option, some, List, [], ◌∷◌, ◌++◌,
  append-nil, arith, ltb, nat_eq, list_eq, length, concat, All, length-append, drop_front_of,
}
use slopmud.Prelude.Bytes.{to_be_bytes, length-to_be_bytes}
use slopmud.Slopio.Stream.{Result, IsFlowing, arriving}
use slopmud.Slopio.Frame.{FrameReader, read_frame}
use slopmud.Slopio.Frame.RoundTrip.{read_frame-write_frame_parts}
use slopmud.Mudproto.{ok, index, slice}
use slopmud.Mudproto.Session.{
  SessionId, IsSessionId, session_to_be_bytes, session_from_be_bytes-session_to_be_bytes,
}
use slopmud.Mudproto.Cursor.{At, At-start, next, slice-At, slice_from-At}
use slopmud.Mudproto.Shard.{
  detach, input, output, err_msg, req_attach, req_detach, req_input, resp_output, resp_err, req_of,
  parse_req, resp_of, parse_resp,
}
use slopmud.Broker.Wire.{header, write_req, attach_body}
use slopmud.Broker.Wire.RoundTrip.{Sent, body-At}

-- A payload that starts with a header.
header-At : (t : ℕ) (session : SessionId) (body : List ℕ) → At (header t session ++ body) 17 body
unfolding header session_to_be_bytes
header-At t session body = record {
  tail = drop_front_of 16 (to_be_bytes 16 session) body (length-to_be_bytes 16 session);
  inside =
      omega (arith, length-append (to_be_bytes 16 session) body, length-to_be_bytes 16 session);
}

-- The parts of `parse_req` and `parse_resp` that read a header, at a payload that starts with one.
module _ (t : ℕ) (session : SessionId) (body : List ℕ) (fits : IsSessionId session) where
  header-index : index (header t session ++ body) 0 ≡ ok t
  unfolding index header
  header-index = refl

  header-session : slice (header t session ++ body) 1 (1 + 16) ≡ ok (session_to_be_bytes session)
  unfolding header session_to_be_bytes
  header-session =
      subst
        (λ k. slice (t ∷ to_be_bytes 16 session ++ body) 1 (1 + k) ≡ ok (to_be_bytes 16 session))
        (length-to_be_bytes 16 session)
        (slice-At (to_be_bytes 16 session) body
          (next (At-start (t ∷ to_be_bytes 16 session ++ body))))

  header-long : ltb (length (header t session ++ body)) 17 ≡ false
  header-long = ground (arith, (header-At t session body).inside)

  parse_req-header :
      parse_req (header t session ++ body) ≡ req_of (header t session ++ body) t session
  unfolding parse_req
  parse_req-header =
      rw
        (
          header-long,
          header-index,
          header-session,
          session_from_be_bytes-session_to_be_bytes session fits,
        )
        refl

  parse_resp-header :
      parse_resp (header t session ++ body) ≡ resp_of (header t session ++ body) t session
  unfolding parse_resp
  parse_resp-header =
      rw
        (
          header-long,
          header-index,
          header-session,
          session_from_be_bytes-session_to_be_bytes session fits,
        )
        refl

module _ (session : SessionId) (fits : IsSessionId session) where
  -- The payload that the broker builds for an attach parses to the same session, bot flag and name,
  -- to the auth blob unless its length does not fit 16 bits, and to each token cut to 255 bytes.
  pub parse_req-attach_body :
      (is_bot : Bool) (auth : Option (List ℕ)) (race class sex pronouns name : List ℕ)
      → parse_req
          (header req_attach session ++ attach_body is_bot auth race class sex pronouns name)
        ≡ ok (Sent session is_bot auth race class sex pronouns name)
  unfolding attach_body req_of
  parse_req-attach_body is_bot auth race class sex pronouns name =
      let body = attach_body is_bot auth race class sex pronouns name in
      parse_req-header req_attach session body fits
      ∙ body-At (header req_attach session ++ body) session is_bot auth race class sex pronouns name
          (header-At req_attach session body)

  -- The other messages between broker and shard come back as they were sent: a detach, an input line,
  -- an output line and an error.
  pub parse-header :
      (text : List ℕ)
      → (parse_req (header req_detach session ++ []) ≡ ok (detach session))
        × (parse_req (header req_input session ++ text) ≡ ok (input session text))
        × (parse_resp (header resp_output session ++ text) ≡ ok (output session text))
        × (parse_resp (header resp_err session ++ text) ≡ ok (err_msg session text))
  unfolding req_of resp_of
  parse-header text = (
    parse_req-header req_detach session [] fits
        ∙ ground (arith, (header-At req_detach session []).inside),
    parse_req-header req_input session text fits
        ∙ rw (slice_from-At (header-At req_input session text)) refl,
    parse_resp-header resp_output session text fits
        ∙ rw (slice_from-At (header-At resp_output session text)) refl,
    parse_resp-header resp_err session text fits
        ∙ rw (slice_from-At (header-At resp_err session text)) refl,
  )

-- From the broker to the shard: if the frame of an attach request with a 128-bit session id is the
-- next in what the shard's reader has buffered and will receive, cut into reads in any way, and is
-- within the reader's limit, then `read_frame` returns a payload, and it parses to the request that
-- was sent: tokens are cut to 255 bytes, and an auth blob longer than 65535 bytes is dropped.
pub attach_reaches_shard :
    (r : FrameReader) (wire rest : List ℕ) (session : SessionId) (is_bot : Bool)
    (auth : Option (List ℕ)) (race class sex pronouns name : List ℕ)
    → IsSessionId session
    → write_req req_attach session (attach_body is_bot auth race class sex pronouns name)
      ≡ Result.ok wire
    → length (
        concat
          (header req_attach session ∷ attach_body is_bot auth race class sex pronouns name ∷ []))
      ≤ r.max_frame_len
    → All IsFlowing r.inner
    → r.buf ++ arriving r.inner ≡ wire ++ rest
    → (p : List ℕ) × ((read_frame r).0 ≡ Result.ok (some p))
      × (parse_req p ≡ ok (Sent session is_bot auth race class sex pronouns name))
unfolding write_req
attach_reaches_shard r wire rest session is_bot auth race class sex pronouns name fits written small
      flow e =
    let body = attach_body is_bot auth race class sex pronouns name in
    (
      concat (header req_attach session ∷ body ∷ []),
      (read_frame-write_frame_parts (header req_attach session ∷ body ∷ []) wire rest r written
          small flow e).0,
      ap (λ b. parse_req (header req_attach session ++ b)) (append-nil body)
          ∙ parse_req-attach_body session fits is_bot auth race class sex pronouns name,
    )
