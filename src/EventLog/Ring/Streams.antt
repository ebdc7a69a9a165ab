-- ===== src/EventLog/Ring/Streams.antt =====
-- What the subscribers of the ring receive (internal/eventlog/eventlog.go).
use mathlib.Core.List.{append_assoc, append-nil}
use boxctl.Base.{
  ℕ, ◌+◌, ◌%◌, ◌^◌, ◌≡◌, ◌⊎◌, inl, inr, ◌≢◌, refl, sym, ap, ◌∙◌, Bool, true, false, Option, none,
  some, List, [], ◌∷◌, ◌++◌, nat_eq, ltb, if◌then◌else◌, length, drop, arith, Bool-cases, inl, inr,
  nat_eq_iff,
}
use boxctl.Base.Text.{Text}
use boxctl.EventLog.Ring.{
  Entry, Stream, Ring, append, send, send_all, subscribe, detach, cancel, first_queued, receive,
  find_stream, stream_room,
}

-- What happens to a ring: an entry is appended, a client subscribes, cancels or receives.
pub data Op : Type 0 where
  posted : ℕ → Entry → Op
  subscribed : ℕ → Op
  canceled : ℕ → Op
  received : ℕ → Op

-- What waits in a stream, and whether it is still attached.
abbrev pub queue_of : Option Stream → List Entry
queue_of none = []
queue_of (some s) = s.queued

abbrev pub attached_of : Option Stream → Bool
attached_of none = false
attached_of (some s) = s.attached

abbrev map_stream : (Stream → Stream) → Option Stream → Option Stream
map_stream f none = none
map_stream f (some s) = some (f s)

find_stream-send_all :
    (id : ℕ) (e : Entry) (streams : List Stream)
    → find_stream id (send_all e streams) ≡ map_stream (send e) (find_stream id streams)
unfolding find_stream send_all
find_stream-send_all id e [] = refl
find_stream-send_all id e (s ∷ streams) = ground (arith, find_stream-send_all id e streams)

find_stream-detach :
    (id k : ℕ) (streams : List Stream)
    → find_stream id (detach k streams) ≡ (
        if nat_eq k id
        then map_stream (λ s. record s { attached = false }) (find_stream id streams)
        else find_stream id streams)
unfolding find_stream detach
find_stream-detach id k [] = ground arith
find_stream-detach id k (s ∷ streams) = ground (arith, find_stream-detach id k streams)

find_stream-receive :
    (id k : ℕ) (streams : List Stream)
    → find_stream id (receive k streams) ≡ (
        if nat_eq k id
        then map_stream (λ s. record s { queued = drop 1 s.queued }) (find_stream id streams)
        else find_stream id streams)
unfolding find_stream receive
find_stream-receive id k [] = ground arith
find_stream-receive id k (s ∷ streams) = ground (arith, find_stream-receive id k streams)

abbrev pub option_list : Option Entry → List Entry
option_list none = []
option_list (some e) = e ∷ []

head_tail : (q : List Entry) → option_list (first_queued q) ++ drop 1 q ≡ q
head_tail [] = refl
head_tail (e ∷ q) = refl

join_open :
    (a b q q' q'' m p ps : List Entry)
    → a ++ q' ≡ q ++ p
    → (b ++ q'') ++ m ≡ q' ++ ps
    → ((a ++ b) ++ q'') ++ m ≡ q ++ (p ++ ps)
join_open a b q q' q'' m p ps e f =
    let left : ((a ++ b) ++ q'') ++ m ≡ a ++ ((b ++ q'') ++ m) = simp append_assoc in
    left
    ∙ ap (λ t. a ++ t) f
    ∙ sym (append_assoc a q' ps)
    ∙ ap (λ t. t ++ ps) e
    ∙ append_assoc q p ps

join_closed :
    (a b q q' q'' m p ps : List Entry)
    → (a ++ q') ++ m ≡ q ++ p
    → q' ≡ b ++ q''
    → ((a ++ b) ++ q'') ++ (m ++ ps) ≡ q ++ (p ++ ps)
join_closed a b q q' q'' m p ps e f =
    let left : ((a ++ b) ++ q'') ++ (m ++ ps) ≡ ((a ++ (b ++ q'')) ++ m) ++ ps =
      simp append_assoc in
    left ∙ ap (λ t. ((a ++ t) ++ m) ++ ps) (sym f) ∙ ap (λ t. t ++ ps) e ∙ append_assoc q p ps

-- an entry is queued or missed, and who misses one is closed
send_step :
    (o : Option Stream) (e : Entry)
    → attached_of o ≡ true
    → (missed : List Entry) × (queue_of (map_stream (send e) o) ++ missed ≡ queue_of o ++ e ∷ [])
      × (attached_of (map_stream (send e) o) ≡ true → missed ≡ [])
unfolding send
send_step none e c = cc
send_step (some s) e c = elim (Bool-cases (ltb (length s.queued) stream_room)) [
  | inl t ↦ ([], rw (c, t, append-nil), λ h. refl)
  | inr f ↦ (e ∷ [], rw (c, f), λ h. ground arith)
]

module _ (lower : ℕ → ℕ) (redact_text : Text → Text) where
  unfoldable pub apply_op : Op → Ring → Ring
  apply_op (posted now raw) r = (append lower redact_text now raw r).0
  apply_op (subscribed after) r = (subscribe after r).0
  apply_op (canceled id) r = cancel id r
  apply_op (received id) r = record r { streams = receive id r.streams }

  unfoldable pub apply_ops : List Op → Ring → Ring
  unfolding apply_op
  apply_ops [] r = r
  apply_ops (op ∷ ops) r = apply_ops ops (apply_op op r)

  -- the entries that are appended, as they are stored
  abbrev posted_by : Op → Ring → List Entry
  posted_by (posted now raw) r = (append lower redact_text now raw r).1 ∷ []
  posted_by _ r = []

  unfoldable pub posted_in : List Op → Ring → List Entry
  unfolding apply_op
  posted_in [] r = []
  posted_in (op ∷ ops) r = posted_by op r ++ posted_in ops (apply_op op r)

  -- the entries that the client of a stream receives
  abbrev received_by : ℕ → Op → Ring → List Entry
  received_by id (received k) r =
      if nat_eq k id then option_list (first_queued (queue_of (find_stream id r.streams))) else []
  received_by id _ r = []

  unfoldable pub received_in : ℕ → List Op → Ring → List Entry
  unfolding apply_op
  received_in id [] r = []
  received_in id (op ∷ ops) r = received_by id op r ++ received_in id ops (apply_op op r)

  -- No new subscription has this id.
  abbrev pub KeepsId : ℕ → Op → Ring → Type 0
  KeepsId id (subscribed after) r = (r.next_sub + 1) % 2 ^ 64 ≢ id
  KeepsId id _ r = Unit

  unfoldable pub KeepIds : ℕ → List Op → Ring → Type 0
  unfolding apply_op
  KeepIds id [] r = Unit
  KeepIds id (op ∷ ops) r = KeepsId id op r × KeepIds id ops (apply_op op r)

  abbrev stream_at : ℕ → Ring → Option Stream
  stream_at id r = find_stream id r.streams

  -- a stream that is closed gets nothing more
  closed_step :
      (id : ℕ) (op : Op) (r : Ring)
      → KeepsId id op r
      → attached_of (stream_at id r) ≡ false
      → (attached_of (stream_at id (apply_op op r)) ≡ false)
        × (queue_of (stream_at id r)
            ≡ received_by id op r ++ queue_of (stream_at id (apply_op op r)))
  unfolding apply_op append send
  closed_step id (posted now raw) r k c = rw find_stream-send_all (ground arith)
  closed_step id (subscribed after) r k c =
      (unfold find_stream subscribe in ground (arith, nat_eq_iff ((r.next_sub + 1) % 2 ^ 64) id))
  closed_step id (canceled j) r k c = (unfold cancel in rw find_stream-detach (ground arith))
  closed_step id (received j) r k c = rw find_stream-receive (ground arith)

  -- a stream that is attached gets what is posted, or is closed and misses it
  open_step :
      (id : ℕ) (op : Op) (r : Ring)
      → KeepsId id op r
      → attached_of (stream_at id r) ≡ true
      → (missed : List Entry) × ((received_by id op r ++ queue_of (stream_at id (apply_op op r)))
            ++ missed
          ≡ queue_of (stream_at id r) ++ posted_by op r)
        × (attached_of (stream_at id (apply_op op r)) ≡ true → missed ≡ [])
  unfolding apply_op append send
  open_step id (posted now raw) r k c =
      rw find_stream-send_all
        (send_step (find_stream id r.streams) (append lower redact_text now raw r).1 c)
  open_step id (subscribed after) r k c = (
    [],
    rw (append-nil, append-nil)
        (unfold find_stream subscribe in ground (arith, nat_eq_iff ((r.next_sub + 1) % 2 ^ 64) id)),
    λ h. refl,
  )
  open_step id (canceled j) r k c = (
    [],
    rw (append-nil, append-nil) (unfold cancel in rw find_stream-detach (ground arith)),
    λ h. refl,
  )
  open_step id (received j) r k c = (
    [],
    rw (append-nil, append-nil)
        (rw find_stream-receive (ground (arith, head_tail (queue_of (find_stream id r.streams))))),
    λ h. refl,
  )

  closed_ops :
      (id : ℕ) (ops : List Op) (r : Ring)
      → KeepIds id ops r
      → attached_of (stream_at id r) ≡ false
      → (attached_of (stream_at id (apply_ops ops r)) ≡ false)
        × (queue_of (stream_at id r)
            ≡ received_in id ops r ++ queue_of (stream_at id (apply_ops ops r)))
  unfolding apply_ops received_in KeepIds
  closed_ops id [] r k c = (c, refl)
  closed_ops id (op ∷ ops) r k c =
      let (c', e) = closed_step id op r k.0 c in
      let (c'', e') = closed_ops id ops (apply_op op r) k.1 c' in
      (
        c'',
        e ∙ ap (λ q. received_by id op r ++ q) e' ∙ sym (append_assoc (received_by id op r) _ _),
      )

  received_ops :
      (id : ℕ) (ops : List Op) (r : Ring)
      → KeepIds id ops r
      → attached_of (find_stream id r.streams) ≡ true
      → (missed : List Entry) × ((received_in id ops r
              ++ queue_of (find_stream id (apply_ops ops r).streams))
            ++ missed
          ≡ queue_of (find_stream id r.streams) ++ posted_in ops r)
        × (attached_of (find_stream id (apply_ops ops r).streams) ≡ true → missed ≡ [])
  unfolding apply_ops received_in posted_in KeepIds
  received_ops id [] r k c = ([], refl, λ h. refl)
  received_ops id (op ∷ ops) r k c =
      let (missed, e, all) = open_step id op r k.0 c in
      elim (Bool-cases (attached_of (stream_at id (apply_op op r)))) [
        | inl c' ↦
            let (missed', e', all') = received_ops id ops (apply_op op r) k.1 c' in
            (
              missed',
              join_open (received_by id op r) (received_in id ops (apply_op op r)) _
                  (queue_of (stream_at id (apply_op op r))) _ missed' (posted_by op r)
                  (posted_in ops (apply_op op r))
                  (sym (append-nil (received_by id op r ++ queue_of (stream_at id (apply_op op r))))
                    ∙ rw (all c') at e)
                  e',
              all',
            )
        | inr c' ↦
            let (c'', e') = closed_ops id ops (apply_op op r) k.1 c' in
            (
              missed ++ posted_in ops (apply_op op r),
              join_closed (received_by id op r) (received_in id ops (apply_op op r)) _
                  (queue_of (stream_at id (apply_op op r))) _ missed (posted_by op r)
                  (posted_in ops (apply_op op r)) e e',
              λ h. cc,
            )
      ]

  -- A client that is attached loses nothing in the middle: what it receives and what then waits for
  -- it are the first of the entries that waited before and were appended since, in their order; and
  -- if it is still attached, they are all of them. Its id is not given to another subscription.
  pub received-prefix :
      (id : ℕ) (ops : List Op) (r : Ring)
      → KeepIds id ops r
      → attached_of (find_stream id r.streams) ≡ true
      → (missed : List Entry) × ((received_in id ops r
              ++ queue_of (find_stream id (apply_ops ops r).streams))
            ++ missed
          ≡ queue_of (find_stream id r.streams) ++ posted_in ops r)
        × ((missed ≡ []) ⊎ (attached_of (find_stream id (apply_ops ops r).streams) ≡ false))
  received-prefix id ops r k c =
      let (missed, e, all) = received_ops id ops r k c in
      elim (Bool-cases (attached_of (find_stream id (apply_ops ops r).streams))) [
        | inl t ↦ (missed, e, inl (all t))
        | inr f ↦ (missed, e, inr f)
      ]
