-- ===== src/EventLog/Ring.antt =====
-- The ring of internal/eventlog/eventlog.go with its subscribers. A stream stays in the model after
-- it is closed, since its client may still read what it holds; `subscribers` of the program are the
-- attached ones. The redaction of an entry and the clock are arguments.
pub mod Order
pub mod Streams
use boxctl.Base.{
  ℕ, ◌+◌, ◌-◌, ◌%◌, ◌^◌, Bool, true, false, ◌&&◌, Option, none, some, List, [], ◌∷◌, ◌++◌, nat_eq,
  ltb, if◌then◌else◌, length, drop, last_n, keep, arith,
}
use boxctl.Base.Text.{Text}
use boxctl.EventLog.Redact.{Fields, redact_fields}

pub record Entry : Type 0 where
  pub sequence : ℕ
  pub timestamp : ℕ
  pub level : Text
  pub component : Text
  pub message : Text
  pub fields : Fields

-- A channel with room for 64 entries: what waits in it, and whether the ring still sends to it.
pub record Stream : Type 0 where
  pub id : ℕ
  pub queued : List Entry
  pub attached : Bool

pub record Ring : Type 0 where
  pub entries : List Entry
  pub capacity : ℕ
  pub next : ℕ
  pub streams : List Stream
  pub next_sub : ℕ

abbrev pub stream_room : ℕ
stream_room = 64

unfoldable pub new : ℕ → Ring
new capacity = record {
  entries = [];
  capacity = if ltb capacity 1 then 1 else capacity;
  next = 0;
  streams = [];
  next_sub = 0;
}

-- the entry as it is stored: numbered, dated and redacted
unfoldable pub stamp : (ℕ → ℕ) → (Text → Text) → ℕ → ℕ → Entry → Entry
stamp lower redact_text sequence now entry = record entry {
  sequence = sequence;
  timestamp = if nat_eq entry.timestamp 0 then now else entry.timestamp;
  message = redact_text entry.message;
  fields = redact_fields lower redact_text entry.fields;
}

-- the slice after an append: a full one is shifted
unfoldable pub store_entry : ℕ → List Entry → Entry → List Entry
store_entry capacity entries entry =
    if nat_eq (length entries) capacity then drop 1 entries ++ entry ∷ [] else entries ++ entry ∷ []

-- A subscriber with no room is closed.
unfoldable pub send : Entry → Stream → Stream
send entry s =
    if s.attached
    then (if ltb (length s.queued) stream_room
        then record s { queued = s.queued ++ entry ∷ [] }
        else record s { attached = false })
    else s

unfoldable pub send_all : Entry → List Stream → List Stream
unfolding send
send_all entry [] = []
send_all entry (s ∷ streams) = send entry s ∷ send_all entry streams

unfoldable pub append : (ℕ → ℕ) → (Text → Text) → ℕ → Entry → Ring → Ring × Entry
unfolding stamp store_entry send_all
append lower redact_text now raw r =
    let next = (r.next + 1) % 2 ^ 64 in
    let entry = stamp lower redact_text next now raw in
    (
      record r {
        next = next;
        entries = store_entry r.capacity r.entries entry;
        streams = send_all entry r.streams;
      },
      entry,
    )

unfoldable pub entries_after : ℕ → List Entry → List Entry
entries_after after [] = []
entries_after after (e ∷ es) =
    let rest = entries_after after es in if ltb after e.sequence then e ∷ rest else rest

-- A limit that is not positive is 0 here, and stands for no limit.
unfoldable pub snapshot : ℕ → ℕ → Ring → List Entry
unfolding entries_after
snapshot after limit r =
    let result = entries_after after r.entries in
    if ltb 0 limit && ltb limit (length result) then last_n limit result else result

unfoldable pub subscribe : ℕ → Ring → Ring × List Entry × ℕ
unfolding entries_after
subscribe after r =
    let id = (r.next_sub + 1) % 2 ^ 64 in
    (
      record r {
        next_sub = id;
        streams = record { id = id; queued = []; attached = true } ∷ r.streams;
      },
      entries_after after r.entries,
      id,
    )

unfoldable pub detach : ℕ → List Stream → List Stream
detach id [] = []
detach id (s ∷ streams) =
    (if nat_eq s.id id then record s { attached = false } else s) ∷ detach id streams

-- `cancel` of a subscription
unfoldable pub cancel : ℕ → Ring → Ring
unfolding detach
cancel id r = record r { streams = detach id r.streams }

abbrev pub first_queued : List Entry → Option Entry
first_queued [] = none
first_queued (e ∷ rest) = some e

-- a client receives the first entry that waits in its stream
unfoldable pub receive : ℕ → List Stream → List Stream
receive id [] = []
receive id (s ∷ streams) =
    (if nat_eq s.id id then record s { queued = drop 1 s.queued } else s) ∷ receive id streams

unfoldable pub find_stream : ℕ → List Stream → Option Stream
find_stream id [] = none
find_stream id (s ∷ streams) =
    let rest = find_stream id streams in if nat_eq s.id id then some s else rest
