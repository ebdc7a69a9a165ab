-- ===== src/EventLog/Ring/Order.antt =====
-- Order and number of the retained entries of the ring (internal/eventlog/eventlog.go).
use mathlib.Core.List.{append_assoc, append-nil}
use boxctl.Base.{
  ℕ, zero, suc, ◌+◌, ◌-◌, ◌%◌, ◌^◌, ◌≤◌, ◌<◌, ◌≡◌, refl, ap, ◌∙◌, ◌&&◌, List, [], ◌∷◌, ◌++◌, nat_eq,
  ltb, if◌then◌else◌, length, drop, last_n, arith, length-append, length-drop, Bool-cases, inl, inr,
}
use boxctl.Base.Text.{Text}
use boxctl.EventLog.Ring.{Entry, Ring, new, stamp, store_entry, append, entries_after, snapshot}

-- Entries have the numbers from `lo + 1` on, one by one.
abbrev pub Numbered : ℕ → List Entry → Type 0
Numbered lo [] = Unit
Numbered lo (e ∷ es) = (e.sequence ≡ lo + 1) × Numbered (lo + 1) es

-- The retained entries are the last ones that were numbered.
pub record IsValid (r : Ring) : Type 0 where
  pub room : 0 < r.capacity
  pub bounded : length r.entries ≤ r.capacity
  pub counted : length r.entries ≤ r.next
  pub numbered : Numbered (r.next - length r.entries) r.entries

Numbered-append :
    (lo : ℕ) (es fs : List Entry)
    → Numbered lo es
    → Numbered (lo + length es) fs
    → Numbered lo (es ++ fs)
Numbered-append lo [] fs h k = let e : lo + 0 ≡ lo = omega arith in rw e at k
Numbered-append lo (x ∷ es) fs h k =
    let e : lo + suc (length es) ≡ lo + 1 + length es = omega arith in
    (h.0, Numbered-append (lo + 1) es fs h.1 (rw e at k))

Numbered-drop :
    (n lo : ℕ) (es : List Entry) → n ≤ length es → Numbered lo es → Numbered (lo + n) (drop n es)
Numbered-drop zero lo es le h = let e : lo + 0 ≡ lo = omega arith in rw e h
Numbered-drop (suc n) lo [] le h = absurd (omega arith)
Numbered-drop (suc n) lo (x ∷ es) le h =
    let e : lo + 1 + n ≡ lo + suc n = omega arith in
    rw e at (Numbered-drop n (lo + 1) es (omega arith) h.1)

after_all :
    (after lo : ℕ) (es : List Entry) → Numbered lo es → after ≤ lo → entries_after after es ≡ es
unfolding entries_after
after_all after lo [] h le = refl
after_all after lo (x ∷ es) h le = ground (arith, after_all after (lo + 1) es h.1)

entries_after-Numbered :
    (after lo : ℕ) (es : List Entry)
    → Numbered lo es
    → entries_after after es ≡ drop (after - lo) es
unfolding entries_after
entries_after-Numbered after lo [] h = drop_nil (after - lo)
  where
    drop_nil : (n : ℕ) → [] ≡ drop {A = Entry} n []
    drop_nil zero = refl
    drop_nil (suc n) = refl
entries_after-Numbered after lo (x ∷ es) h = elim (Bool-cases (ltb after x.sequence)) [
  | inl t ↦
      let e : after - lo ≡ 0 = ground (arith, h.0) in
      rw (t, e, after_all after (lo + 1) es h.1 (ground (arith, h.0)))
  | inr f ↦
      let e : after - lo ≡ suc (after - (lo + 1)) = ground (arith, h.0) in
      rw (f, e, entries_after-Numbered after (lo + 1) es h.1)
]

-- A new ring is valid, and holds an entry at least.
pub new-IsValid : (capacity : ℕ) → IsValid (new capacity)
unfolding new
new-IsValid capacity = ground arith

Numbered-snoc :
    (capacity next lo : ℕ) (ds : List Entry) (e : Entry)
    → Numbered lo ds
    → lo + length ds ≡ next
    → length ds < capacity
    → e.sequence ≡ next + 1
    → (length (ds ++ e ∷ []) ≤ capacity)
      × (length (ds ++ e ∷ []) ≤ next + 1)
      × Numbered (next + 1 - length (ds ++ e ∷ [])) (ds ++ e ∷ [])
Numbered-snoc capacity next lo ds e h l c s =
    let n = length-append ds (e ∷ []) in
    let from : next + 1 - length (ds ++ e ∷ []) ≡ lo = omega (arith, n) in
    (omega (arith, n), omega (arith, n), rw from (Numbered-append lo ds (e ∷ []) h (omega arith)))

store_entry-Numbered :
    (capacity next : ℕ) (es : List Entry) (e : Entry)
    → 0 < capacity
    → length es ≤ capacity
    → length es ≤ next
    → Numbered (next - length es) es
    → e.sequence ≡ next + 1
    → (length (store_entry capacity es e) ≤ capacity)
      × (length (store_entry capacity es e) ≤ next + 1)
      × Numbered (next + 1 - length (store_entry capacity es e)) (store_entry capacity es e)
unfolding store_entry
store_entry-Numbered capacity next es e p b c h s =
    elim (Bool-cases (nat_eq (length es) capacity)) [
      | inl t ↦
          let full : length es ≡ capacity = ground arith in
          rw t (
            Numbered-snoc capacity next (next - length es + 1) (drop 1 es) e
              (Numbered-drop 1 (next - length es) es (omega arith) h)
              (omega (arith, length-drop 1 es)) (omega (arith, length-drop 1 es)) s)
      | inr f ↦
          rw f
            (Numbered-snoc capacity next (next - length es) es e h (omega arith) (ground arith) s)
    ]

module _ {A : Type 0} where
  drop-append_le : (n : ℕ) (xs ys : List A) → n ≤ length xs → drop n (xs ++ ys) ≡ drop n xs ++ ys
  drop-append_le zero xs ys h = refl
  drop-append_le (suc n) [] ys h = absurd (omega arith)
  drop-append_le (suc n) (x ∷ xs) ys h = drop-append_le n xs ys (omega arith)

  drop_one-drop : (n : ℕ) (xs : List A) → drop 1 (drop n xs) ≡ drop (n + 1) xs
  drop_one-drop zero [] = refl
  drop_one-drop zero (x ∷ xs) = refl
  drop_one-drop (suc n) [] = let e : suc n + 1 ≡ suc (n + 1) = omega arith in rw e
  drop_one-drop (suc n) (x ∷ xs) =
      let e : suc n + 1 ≡ suc (n + 1) = omega arith in rw e (drop_one-drop n xs)

drop-drop {ℓ} : {A : Type ℓ} (a b : ℕ) (xs : List A) → drop a (drop b xs) ≡ drop (b + a) xs
drop-drop a zero xs = let e : 0 + a ≡ a = omega arith in rw e
drop-drop zero (suc b) [] = let e : suc b + 0 ≡ suc b = omega arith in rw e
drop-drop (suc a) (suc b) [] = let e : suc b + suc a ≡ suc (b + suc a) = omega arith in rw e
drop-drop a (suc b) (x ∷ xs) =
    let e : suc b + a ≡ suc (b + a) = omega arith in rw e (drop-drop a b xs)

-- storing an entry is keeping the last ones of the whole history
store_entry-last_n :
    (capacity : ℕ) (hist : List Entry) (e : Entry)
    → 0 < capacity
    → store_entry capacity (last_n capacity hist) e ≡ last_n capacity (hist ++ e ∷ [])
unfolding store_entry
store_entry-last_n capacity hist e p =
    let n = length-append hist (e ∷ []) in
    let d = length-drop (length hist - capacity) hist in
    elim (Bool-cases (nat_eq (length (last_n capacity hist)) capacity)) [
      | inl t ↦
          let full : capacity ≤ length hist = ground (arith, d) in
          let more : length (hist ++ e ∷ []) - capacity ≡ length hist - capacity + 1 =
            omega (arith, n) in
          rw (
            t,
            more,
            drop_one-drop (length hist - capacity) hist,
            drop-append_le (length hist - capacity + 1) hist (e ∷ []) (omega arith),
          )
      | inr f ↦
          let free : length hist < capacity = ground (arith, d) in
          let none : length (hist ++ e ∷ []) - capacity ≡ 0 = omega (arith, n) in
          let all : length hist - capacity ≡ 0 = omega arith in rw (f, none, all)
    ]

module _ (lower : ℕ → ℕ) (redact_text : Text → Text) where
  -- Appending keeps the ring valid, as long as the 64-bit counter does not wrap around.
  pub append-IsValid :
      (now : ℕ) (raw : Entry) (r : Ring)
      → r.next + 1 < 2 ^ 64
      → IsValid r
      → IsValid (append lower redact_text now raw r).0
  unfolding append stamp
  append-IsValid now raw r small v =
      let e : (r.next + 1) % 2 ^ 64 ≡ r.next + 1 = omega arith in
      let entry = stamp lower redact_text (r.next + 1) now raw in
      let (bounded, counted, numbered) =
        store_entry-Numbered r.capacity r.next r.entries entry v.room v.bounded v.counted v.numbered
          refl in
      rw e (record { room = v.room; bounded = bounded; counted = counted; numbered = numbered })

  -- appending a series of entries, and what was stored for each
  unfoldable pub append_all : List (ℕ × Entry) → Ring → Ring
  unfolding append
  append_all [] r = r
  append_all ((now, raw) ∷ rest) r = append_all rest (append lower redact_text now raw r).0

  unfoldable pub stamped_all : List (ℕ × Entry) → Ring → List Entry
  unfolding append
  stamped_all [] r = []
  stamped_all ((now, raw) ∷ rest) r =
      let (r', entry) = append lower redact_text now raw r in entry ∷ stamped_all rest r'

  -- A ring with room that holds the last entries of a history, as many as it has room for and in the
  -- order in which they came, does so after any series of entries is appended.
  pub entries-append_all :
      (hist : List Entry) (inputs : List (ℕ × Entry)) (r : Ring)
      → 0 < r.capacity
      → r.entries ≡ last_n r.capacity hist
      → (append_all inputs r).entries ≡ last_n r.capacity (hist ++ stamped_all inputs r)
  unfolding append_all stamped_all
  entries-append_all hist [] r p h = rw append-nil h
  entries-append_all hist ((now, raw) ∷ rest) r p h =
      let (r', entry) = append lower redact_text now raw r in
      rw (← append_assoc hist (entry ∷ []) (stamped_all rest r')) (
        entries-append_all (hist ++ entry ∷ []) rest r' p (
          ap (λ es. store_entry r.capacity es entry) h
          ∙ store_entry-last_n r.capacity hist entry p))

-- a limited part of the last entries, by one index
limited :
    (d limit : ℕ) (es : List Entry)
    → (if ltb 0 limit && ltb limit (length (drop d es))
        then last_n limit (drop d es)
        else drop d es)
      ≡ drop (if ltb 0 limit && ltb limit (length es - d) then length es - limit else d) es
limited d limit es =
    let n = length-drop d es in
    elim (Bool-cases (ltb 0 limit && ltb limit (length es - d))) [
      | inl t ↦
          let e : d + (length es - d - limit) ≡ length es - limit = ground arith in
          rw (n, t, drop-drop (length es - d - limit) d es, e)
      | inr f ↦ rw (n, f)
    ]

-- A snapshot of a valid ring after a number that it has reached has all the retained entries with
-- higher numbers, or the last of them if a limit is given: none is skipped or repeated.
pub snapshot_lem :
    (after limit : ℕ) (r : Ring)
    → IsValid r
    → after ≤ r.next
    → snapshot after limit r
      ≡ last_n
          (if ltb 0 limit && ltb limit (r.next - after) then limit else r.next - after)
          r.entries
unfolding snapshot
snapshot_lem after limit r v le =
    let back = r.next - length r.entries in
    let index : (if ltb 0 limit && ltb limit (length r.entries - (after - back))
          then length r.entries - limit
          else after - back)
        ≡ length r.entries
          - (if ltb 0 limit && ltb limit (r.next - after) then limit else r.next - after) =
      ground (arith, v.counted) in
    rw (entries_after-Numbered after back r.entries v.numbered)
      (limited (after - back) limit r.entries ∙ ap (λ n. drop n r.entries) index)
