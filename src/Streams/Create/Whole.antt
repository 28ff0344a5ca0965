-- ===== src/Streams/Create/Whole.antt =====
-- The streams that UIMCreateStreams leaves.
use native.Mathlib.Decide.{ℕ_discrete}
use os_x_generic_usb.Base.{
  ℕ, zero, suc, ◌+◌, ◌≤◌, ◌<◌, ◌≡◌, ◌≢◌, ◌∙◌, refl, sym, ap, none, Bool, true, false, arith, inl,
  inr, ◌⊎◌, Bool-cases, eq→==, ne→==, subst, u16,
}
use os_x_generic_usb.Streams.Sort.Order.{lt_or_le}
use os_x_generic_usb.Streams.Create.{
  CreateResult, success, no_memory, StreamEntry, Entries, put_entry, fresh_stream, with_stream,
  create_stream, cleaned, cleanup_partial_stream_allocations, StreamsEndpoint, on_made,
  streams_loop, uim_create_streams,
}

put_entry-same : (ps : Entries) (id : ℕ) (p : StreamEntry) → put_entry ps id p id ≡ p
unfolding put_entry
put_entry-same ps id p = rw (eq→== id id refl) refl

put_entry-other : (ps : Entries) (id i : ℕ) (p : StreamEntry) → i ≢ id → put_entry ps id p i ≡ ps i
unfolding put_entry
put_entry-other ps id i p ne = rw (ne→== i id ne) refl

-- A stream that does not exist, and one that does.
abbrev pub IsAbsent : StreamEntry → Type 0
IsAbsent p = (p.md ≡ 0) × (p.async_endpoint ≡ none)

abbrev pub IsStreamOf : StreamEntry → StreamEntry → Type 0
IsStreamOf main p =
    (p.md ≡ main.md) × (p.ep_type ≡ main.ep_type) × (p.async_endpoint ≡ main.async_endpoint)

cleaned-IsAbsent :
    (ps : Entries) (last i : ℕ)
    → 1 ≤ i
    → i ≤ last
    → IsAbsent (cleanup_partial_stream_allocations ps last i)
unfolding cleanup_partial_stream_allocations cleaned
cleaned-IsAbsent ps zero i a b = absurd (omega arith)
cleaned-IsAbsent ps (suc last) i a b =
    let before = cleanup_partial_stream_allocations ps last in
    let p = cleaned (before (suc last)) in
    elim (ℕ_discrete i (suc last)) [
      | yes e ↦
          subst IsAbsent
            (sym (ap (put_entry before (suc last) p) e ∙ put_entry-same before (suc last) p))
            (refl, refl)
      | no ne ↦
          subst IsAbsent (sym (put_entry-other before (suc last) i p ne))
            (cleaned-IsAbsent ps last i a (omega arith))
    ]

cleanup-other :
    (ps : Entries) (last i : ℕ) → last < i → cleanup_partial_stream_allocations ps last i ≡ ps i
unfolding cleanup_partial_stream_allocations
cleanup-other ps zero i lt = refl
cleanup-other ps (suc last) i lt =
    put_entry-other (cleanup_partial_stream_allocations ps last) (suc last) i _ (omega arith)
    ∙ cleanup-other ps last i (omega arith)

-- What the loop starts from: the streams below `id` exist, and those from there to `last` do not.
pub record Underway (ps : Entries) (id last : ℕ) : Type 0 where
  pub has_memory : (ps 0).has_memory ≡ true
  pub enough : last < (ps 0).num_trbs
  pub made : (i : ℕ) → 1 ≤ i → i < id → IsStreamOf (ps 0) (ps i)
  pub absent : (i : ℕ) → id ≤ i → i ≤ last → IsAbsent (ps i)

create_stream-made :
    (memory : ℕ → Bool) (ps : Entries) (id last : ℕ)
    → Underway ps id last
    → id ≤ last
    → memory id ≡ true
    → create_stream memory ps id ≡ (put_entry ps id (with_stream true (ps 0) (ps id)), success)
unfolding create_stream
create_stream-made memory ps id last u le got =
    let md = (u.absent id (omega arith) le).0 in
    let fits = u.enough in let has = u.has_memory in ground arith

create_stream-failed :
    (memory : ℕ → Bool) (ps : Entries) (id last : ℕ)
    → Underway ps id last
    → id ≤ last
    → memory id ≡ false
    → create_stream memory ps id ≡ (put_entry ps id (with_stream false (ps 0) (ps id)), no_memory)
unfolding create_stream
create_stream-failed memory ps id last u le got =
    let md = (u.absent id (omega arith) le).0 in
    let fits = u.enough in let has = u.has_memory in ground arith

after_one :
    (ps : Entries) (id last : ℕ)
    → Underway ps id last
    → 1 ≤ id
    → id ≤ last
    → Underway (put_entry ps id (with_stream true (ps 0) (ps id))) (id + 1) last
unfolding with_stream fresh_stream
after_one ps id last u one le =
    let p = with_stream true (ps 0) (ps id) in
    let zero_same : put_entry ps id p 0 ≡ ps 0 = put_entry-other ps id 0 p (λ e. omega arith) in
    record {
      has_memory = ap (λ (q : StreamEntry). q.has_memory) zero_same ∙ u.has_memory;
      enough = subst (λ (q : StreamEntry). last < q.num_trbs) (sym zero_same) u.enough;
      made = λ i a b.
          subst (λ (q : StreamEntry). IsStreamOf q (put_entry ps id p i)) (sym zero_same)
            (elim (ℕ_discrete i id) [
              | yes e ↦
                  subst (IsStreamOf (ps 0))
                    (sym (ap (put_entry ps id p) e ∙ put_entry-same ps id p)) (refl, refl, refl)
              | no ne ↦
                  subst (IsStreamOf (ps 0)) (sym (put_entry-other ps id i p ne))
                    (u.made i a (omega arith))
            ]);
      absent = λ i a b.
          subst IsAbsent (sym (put_entry-other ps id i p (λ e. omega arith)))
            (u.absent i (omega arith) b);
    }

-- All streams from 1 to `last` were made, or none of them exists.
abbrev pub AllOrNone : ℕ → StreamsEndpoint × CreateResult → Type 0
AllOrNone last (s, m) =
    ((m ≡ success) × ((i : ℕ) → 1 ≤ i → i ≤ last → IsStreamOf (s.entries 0) (s.entries i)))
    ⊎ ((m ≡ no_memory)
        × (s.last_stream ≡ 0)
        × ((i : ℕ) → 1 ≤ i → i ≤ last → IsAbsent (s.entries i)))

streams_loop-AllOrNone :
    (memory : ℕ → Bool) (n : ℕ) (s : StreamsEndpoint) (id last : ℕ)
    → 1 ≤ id
    → last + 1 ≡ id + n
    → Underway s.entries id last
    → AllOrNone last (streams_loop memory n s id)
unfolding streams_loop on_made
streams_loop-AllOrNone memory zero s id last one sum u =
    inl (refl, λ i a b. u.made i a (omega arith))
streams_loop-AllOrNone memory (suc n) s id last one sum u = elim (Bool-cases (memory id)) [
  | inl got ↦ rw (create_stream-made memory s.entries id last u (omega arith) got) (
      streams_loop-AllOrNone memory n
        (record s {
          entries = put_entry s.entries id (with_stream true (s.entries 0) (s.entries id));
        })
        (id + 1) last (omega arith) (omega arith) (after_one s.entries id last u one (omega arith)))
  | inr failed ↦
      let p = with_stream false (s.entries 0) (s.entries id) in
      let ps = put_entry s.entries id p in
      rw (create_stream-failed memory s.entries id last u (omega arith) failed) (
        inr (
          refl,
          refl,
          λ i a b. elim (lt_or_le id i) [
            | inl lt ↦
                subst IsAbsent
                  (sym (
                    cleanup-other ps id i lt ∙ put_entry-other s.entries id i p (λ e. omega arith)))
                  (u.absent i (omega arith) b)
            | inr le ↦ cleaned-IsAbsent ps id i a le
          ],
        ))
]

-- UIMCreateStreams on a controller with streams, for an endpoint from 2 to 31 of a slot that may
-- have several streams and has none yet, whose ring has memory and room for the streams asked for,
-- which are at least one and no more than the endpoint may have: it reports success and each stream
-- has the descriptor, the type and the parameters of the endpoint's own ring, or it reports that
-- memory is short and none of the streams exists, however many were made before.
pub uim_create_streams-AllOrNone :
    (memory : ℕ → Bool) (max_psa_size slot endpoint : ℕ) (s : StreamsEndpoint) (max_stream : ℕ)
    → max_psa_size ≢ 0
    → slot ≢ 0
    → 2 ≤ endpoint
    → endpoint < 32
    → s.last_stream ≡ 0
    → 1 ≤ max_stream
    → max_stream ≤ s.max_stream
    → 1 < s.max_stream
    → Underway s.entries 1 max_stream
    → AllOrNone max_stream (uim_create_streams memory max_psa_size slot endpoint s max_stream)
unfolding uim_create_streams
uim_create_streams-AllOrNone memory max_psa_size slot endpoint s max_stream psa slot_in low high
      none_yet one le streams u =
    let t : StreamsEndpoint = record s { last_stream = u16 max_stream } in
    let made =
      streams_loop-AllOrNone memory max_stream t 1 max_stream (omega arith) (omega arith) u in
    let run : uim_create_streams memory max_psa_size slot endpoint s max_stream
        ≡ streams_loop memory max_stream t 1 =
      ground arith in
    subst (AllOrNone max_stream) (sym run) made
