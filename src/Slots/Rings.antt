-- ===== src/Slots/Rings.antt =====
-- Rings of streams: what CreateRing makes GetRing finds, and which doorbells RestartStreams rings.
use os_x_generic_usb.Base.{
  ℕ, zero, suc, ◌+◌, ◌%◌, ◌<◌, ◌≤◌, ◌≡◌, ◌≢◌, ◌∙◌, ◌⊎◌, inl, inr, refl, sym, ap, List, [], ◌∷◌,
  none, some, true, false, arith, get_or-replicate, lt→leb, le→ltb, subst, Bool-cases,
}
use native.Mathlib.Decide.{ℕ_discrete}
use os_x_generic_usb.Slots.{
  Entry, entry_at, blank_entry, EndpointRings, get_ring, new_rings, create_ring, wants_doorbell,
  restart_from, restart_streams,
}

-- A stream is in a list.
unfoldable pub Listed : ℕ → List ℕ → Type 0
Listed x [] = ⊥
Listed x (y ∷ ys) = (x ≡ y) ⊎ Listed x ys

restart_from-Listed :
    (n : ℕ) (rings : List Entry) (stream_id sid x : ℕ)
    → (Listed x (restart_from n rings stream_id sid)
        → (sid ≤ x) × (x < sid + n) × (wants_doorbell rings stream_id x ≡ true))
      × ((sid ≤ x) × (x < sid + n) × (wants_doorbell rings stream_id x ≡ true)
          → Listed x (restart_from n rings stream_id sid))
unfolding restart_from Listed
restart_from-Listed zero rings stream_id sid x =
    (λ h. elim h [ ], λ h. absurd (omega (arith, h.0, h.1)))
restart_from-Listed (suc n) rings stream_id sid x =
    let later = restart_from-Listed n rings stream_id (sid + 1) x in
    elim (Bool-cases (wants_doorbell rings stream_id sid)) [
      | inl e ↦
          rw (e, restart_from, Listed)
            (
              λ h. elim h [
                | inl same ↦ (
                  omega (arith, same),
                  omega (arith, same),
                  ap (λ (i : ℕ). wants_doorbell rings stream_id i) same ∙ e,
                )
                | inr more ↦ (
                  omega (arith, (later.0 more).0),
                  omega (arith, (later.0 more).1),
                  (later.0 more).2,
                )
              ],
              λ h. elim (ℕ_discrete x sid) [
                | yes same ↦ inl same
                | no other ↦ inr (later.1 (omega (arith, h.0, other), omega (arith, h.1), h.2))
              ],
            )
      | inr e ↦
          rw (e, restart_from)
            (
              λ h. (omega (arith, (later.0 h).0), omega (arith, (later.0 h).1), (later.0 h).2),
              λ h. elim (ℕ_discrete x sid) [
                | yes same ↦
                    let q : true ≡ false =
                      sym h.2 ∙ ap (λ (i : ℕ). wants_doorbell rings stream_id i) same ∙ e in
                    ground (arith, q)
                | no other ↦ later.1 (omega (arith, h.0, other), omega (arith, h.1), h.2)
              ],
            )
    ]

restart_streams-rings :
    (s : EndpointRings) (rings : List Entry) (stream_id : ℕ)
    → s.rings ≡ some rings
    → 2 ≤ s.last_stream
    → restart_streams s stream_id ≡ restart_from s.last_stream rings stream_id 1
unfolding restart_streams
restart_streams-rings s rings stream_id e two =
    rw (e, restart_streams, le→ltb s.last_stream 2 two) refl

-- A stream other than the given one, whose ring is not empty.
abbrev pub IsBusy : List Entry → ℕ → ℕ → Type 0
IsBusy rings stream_id x =
    (x ≢ stream_id) × ((entry_at rings x).dequeue_index ≢ (entry_at rings x).enqueue_index)

wants_doorbell-IsBusy :
    (rings : List Entry) (stream_id x : ℕ)
    → (wants_doorbell rings stream_id x ≡ true → IsBusy rings stream_id x)
      × (IsBusy rings stream_id x → wants_doorbell rings stream_id x ≡ true)
unfolding wants_doorbell
wants_doorbell-IsBusy rings stream_id x =
    (λ h. (λ e. ground (arith, h, e), λ e. ground (arith, h, e)), λ h. ground (arith, h))

-- RestartStreams on an endpoint with rings and at least two streams rings the doorbells of those of its
-- streams other than the given one whose rings are not empty, and of no others.
pub restart_streams-Listed :
    (s : EndpointRings) (rings : List Entry) (stream_id x : ℕ)
    → s.rings ≡ some rings
    → 2 ≤ s.last_stream
    → (Listed x (restart_streams s stream_id)
        → (1 ≤ x) × (x ≤ s.last_stream) × IsBusy rings stream_id x)
      × ((1 ≤ x) × (x ≤ s.last_stream) × IsBusy rings stream_id x
          → Listed x (restart_streams s stream_id))
unfolding restart_streams
restart_streams-Listed s rings stream_id x e two =
    let all = restart_from-Listed s.last_stream rings stream_id 1 x in
    let same : restart_streams s stream_id ≡ restart_from s.last_stream rings stream_id 1 =
      restart_streams-rings s rings stream_id e two in
    let busy = wants_doorbell-IsBusy rings stream_id x in
    (
      λ h. let q = all.0 (subst (Listed x) same h) in (q.0, omega (arith, q.1), busy.0 q.2),
      λ h. subst (Listed x) (sym same) (all.1 (h.0, omega (arith, h.1), busy.1 h.2)),
    )

-- Where the endpoint has no rings and there is memory, for a slot below 256 and an endpoint below 32,
-- CreateRing makes a ring that GetRing finds for the stream 0, marked with the slot and the endpoint;
-- the other streams are not in use yet.
pub get_ring-create_ring :
    (s : EndpointRings) (slot endpoint max_stream stream_id : ℕ)
    → s.rings ≡ none
    → slot < 256
    → endpoint < 32
    → let d = (create_ring true s slot endpoint max_stream).0 in
      (get_ring d 0 ≡ some (record blank_entry { slot = slot; endpoint = endpoint }))
      × (0 < stream_id → get_ring d stream_id ≡ none)
unfolding get_ring create_ring new_rings
get_ring-create_ring s slot endpoint max_stream stream_id e small small' = (
  rw (e, create_ring)
      (ap some (
          get_or-replicate (1 + max_stream) 0 (of_endpoint (slot % 256) (endpoint % 256))
            blank_entry (omega arith))
        ∙ ap (λ (a : ℕ). some (of_endpoint a (endpoint % 256))) (omega arith)
        ∙ ap (λ (b : ℕ). some (of_endpoint slot b)) (omega arith)),
  λ used. rw (e, create_ring, lt→leb stream_id 0 used) refl,
)
  where
    of_endpoint : ℕ → ℕ → Entry
    of_endpoint a b = record blank_entry { slot = a; endpoint = b }
