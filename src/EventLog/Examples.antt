-- ===== src/EventLog/Examples.antt =====
-- The log (internal/eventlog/eventlog.go) at concrete inputs.
use boxctl.Base.{
  ℕ, ◌+◌, ◌-◌, ◌≡◌, ◌⊎◌, refl, false, ◌&&◌, List, [], ◌∷◌, ◌++◌, ltb, if◌then◌else◌, arith, last_n,
}
use boxctl.Base.Text.{Text, codes}
use boxctl.EventLog.Redact.{
  text, items, other, nil, cons, end, field, redacted, redact_fields, sensitive_field,
}
use boxctl.EventLog.Safety.{SafeFields, redact_fields-SafeFields}
use boxctl.EventLog.Ring.{
  Entry, Ring, new, append, snapshot, subscribe, find_stream, receive, cancel,
}
use boxctl.EventLog.Ring.Order.{
  IsValid, new-IsValid, append-IsValid, append_all, stamped_all, entries-append_all, snapshot_lem,
}
use boxctl.EventLog.Ring.Streams.{
  Op, posted, subscribed, received, canceled, queue_of, attached_of, KeepIds, apply_ops,
  received_in, posted_in, received-prefix,
}

abbrev lower : ℕ → ℕ
lower c = if ltb 64 c && ltb c 91 then c + 32 else c

-- a redaction that hides every character
abbrev hide : Text → Text
hide [] = []
hide (c ∷ cs) = b'*' ∷ hide cs

abbrev raw : Entry
raw = record {
  sequence = 0;
  timestamp = 0;
  level = codes "INFO";
  component = [];
  message = codes "up";
  fields = field (codes "API_Key") (text (codes "k")) (field (codes "n") (other 3) end);
}

marks_the_key :
    redact_fields lower hide raw.fields
    ≡ field (codes "API_Key") redacted (field (codes "n") (other 3) end)
unfolding redact_fields sensitive_field
marks_the_key = refl

redact_fields-SafeFields_example : SafeFields lower hide (redact_fields lower hide raw.fields)
redact_fields-SafeFields_example = redact_fields-SafeFields lower hide raw.fields

-- A list in a list is left as it is.
keeps_nested_list :
    redact_fields lower hide
      (field (codes "n") (items (cons (items (cons (text (codes "token=x")) nil)) nil)) end)
    ≡ field (codes "n") (items (cons (items (cons (text (codes "token=x")) nil)) nil)) end
unfolding redact_fields sensitive_field
keeps_nested_list = refl

append-IsValid_example : IsValid (append lower hide 5 raw (new 2)).0
unfolding new
append-IsValid_example = append-IsValid lower hide 5 raw (new 2) (omega arith) (new-IsValid 2)

abbrev inputs : List (ℕ × Entry)
inputs = (5, raw) ∷ (6, raw) ∷ (7, raw) ∷ []

entries-append_all_example :
    (append_all lower hide inputs (new 2)).entries
    ≡ last_n (new 2).capacity ([] ++ stamped_all lower hide inputs (new 2))
unfolding new
entries-append_all_example = entries-append_all lower hide [] inputs (new 2) (omega arith) refl

abbrev one_logged : Ring
one_logged = (append lower hide 5 raw (new 2)).0

snapshot_lem_example :
    snapshot 0 7 one_logged
    ≡ last_n
        (if ltb 0 7 && ltb 7 (one_logged.next - 0) then 7 else one_logged.next - 0)
        one_logged.entries
unfolding append new
snapshot_lem_example = snapshot_lem 0 7 one_logged append-IsValid_example (omega arith)

abbrev with_client : Ring
with_client = (subscribe 0 (new 2)).0

abbrev history : List Op
history = posted 5 raw ∷ received 1 ∷ subscribed 0 ∷ posted 6 raw ∷ canceled 1 ∷ posted 7 raw ∷ []

received-prefix_example :
    (missed : List Entry) × ((received_in lower hide 1 history with_client
          ++ queue_of (find_stream 1 (apply_ops lower hide history with_client).streams))
        ++ missed
      ≡ queue_of (find_stream 1 with_client.streams) ++ posted_in lower hide history with_client)
    × ((missed ≡ [])
        ⊎ (attached_of (find_stream 1 (apply_ops lower hide history with_client).streams) ≡ false))
unfolding KeepIds subscribe append new find_stream cancel receive
received-prefix_example = received-prefix lower hide 1 history with_client (ground arith) refl
