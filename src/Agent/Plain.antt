-- ===== src/Agent/Plain.antt =====
-- A plain format in place of JSON and CRC-32, for runs on concrete inputs.
use gooophira_mp.Prelude.{
  ℕ, refl, Option, none, some, List, [], ◌∷◌, ◌++◌, length, take, drop, arith, take-append,
  drop-append,
}
use gooophira_mp.Agent.Outbox.{Envelope, Format}
use gooophira_mp.Agent.Outbox.Records.{IsFormat}

unfoldable pub marshal_plain : Envelope → List ℕ
marshal_plain e =
    e.version ∷ e.sequence ∷ e.created_at ∷ length e.id ∷ length e.event_type ∷ e.id
    ++ (e.event_type ++ e.payload)

unfoldable pub unmarshal_plain : List ℕ → Option Envelope
unmarshal_plain (version ∷ sequence ∷ created_at ∷ m ∷ n ∷ rest) = some (record {
  version = version;
  id = take m rest;
  sequence = sequence;
  event_type = take n (drop m rest);
  created_at = created_at;
  payload = drop n (drop m rest);
})
unmarshal_plain other = none

unfoldable pub marshal_plain_response : ℕ → ℕ → List Envelope → List ℕ
marshal_plain_response acked latest [] = acked ∷ latest ∷ []
marshal_plain_response acked latest (e ∷ es) =
    length (marshal_plain e) ∷ marshal_plain e ++ marshal_plain_response acked latest es

abbrev pub plain : Format
plain = record {
  marshal = marshal_plain;
  marshal_response = marshal_plain_response;
  unmarshal = unmarshal_plain;
  checksum = λ bs. 7;
}

pub plain-IsFormat : IsFormat plain
unfolding marshal_plain unmarshal_plain
plain-IsFormat = record {
  parses = λ e.
      rw (take-append e.id, drop-append e.id, take-append e.event_type, drop-append e.event_type)
        refl;
  nonempty = λ e. omega arith;
  small = λ bs. omega arith;
}
