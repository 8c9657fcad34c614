-- ===== src/Polling/Turns.antt =====
-- oxenmq/proxy.cpp, `proxy_loop`: the circular buffer is a queue of connections.
use oxen_mq.Common.{
  ℕ, zero, suc, ◌+◌, ◌-◌, ◌%◌, ◌≤◌, ◌<◌, ◌≡◌, ◌≢◌, refl, sym, ap, ◌∙◌, inl, inr, false, Option,
  none, some, List, [], ◌∷◌, ◌++◌, map, Bytes, ℤ, length, get_elem?, modify, is_empty, ◌==◌, ltb,
  if◌then◌else◌, length-append, length-modify, length-map, get_elem?-append_left,
  get_elem?-modify_self, get_elem?-modify_ne, get_elem?_total, get_elem?-lt, ◌⊎◌, ==_refl, arith,
  Bool-cases, Option-cases,
}
use oxen_mq.Polling.{Proxy, stopped, fill_queue, poll_loop, poll_messages, take_turns}

-- The position i steps after `pos` in a circle.
abbrev slot : ℕ → ℕ → ℕ → ℕ
slot size pos i = if ltb (pos + i) size then pos + i else pos + i - size

next-slot : (size pos : ℕ) → pos < size → (pos + 1) % size ≡ slot size pos 1
next-slot size pos h = grind arith

slot-suc :
    (size pos i : ℕ)
    → pos < size
    → suc i < size
    → slot size (slot size pos 1) i ≡ slot size pos (suc i)
slot-suc size pos i h k = ground arith

slot_lt : (size pos i : ℕ) → pos < size → i < size → slot size pos i < size
slot_lt size pos i h k = ground arith

slot_inj : (size pos i j : ℕ) → pos < size → i < j → j < size → slot size pos i ≢ slot size pos j
slot_inj size pos i j h k l = ground arith

-- The buffer holds the connections of the queue from `pos` to `end`.
record Window (queue : List (Option ℤ)) (pos end : ℕ) (ids : List ℤ) : Type 0 where
  in_range : pos < length queue
  has_room : length ids < length queue
  end_is : end ≡ slot (length queue) pos (length ids)
  holds :
      (i : ℕ) (id : ℤ)
      → get_elem? ids i ≡ some id
      → get_elem? queue (slot (length queue) pos i) ≡ some (some id)

slot_zero : (size pos : ℕ) → pos < size → slot size pos 0 ≡ pos
slot_zero size pos h = ground arith

module _ {queue : List (Option ℤ)} {pos end : ℕ} {id : ℤ} {ids : List ℤ} where
  Window-here : Window queue pos end (id ∷ ids) → get_elem? queue pos ≡ some (some id)
  Window-here w = rw (slot_zero (length queue) pos w.in_range) at (w.holds 0 id refl)

  Window-ne : Window queue pos end (id ∷ ids) → (pos == end) ≡ false
  Window-ne w = ground (arith, w.in_range, w.has_room, w.end_is)

  Window-pop : Window queue pos end (id ∷ ids) → Window queue ((pos + 1) % length queue) end ids
  Window-pop w =
      let next = next-slot (length queue) pos w.in_range in
      rw next (record {
        in_range = slot_lt (length queue) pos 1 w.in_range (omega (arith, w.has_room));
        has_room = omega (arith, w.has_room);
        end_is = w.end_is ∙ sym (slot-suc (length queue) pos (length ids) w.in_range w.has_room);
        holds = λ i x e.
            rw
              (slot-suc (length queue) pos i w.in_range
                (omega (arith, w.has_room, get_elem?-lt ids i x e)))
              (w.holds (suc i) x e);
      })

slot-next :
    (size pos n : ℕ)
    → pos < size
    → suc n < size
    → (slot size pos n + 1) % size ≡ slot size pos (suc n)
slot-next size pos n h k =
    next-slot size (slot size pos n) (slot_lt size pos n h (omega arith)) ∙ ground arith

-- Where an element of a longer queue is.
append_end-cases :
    (ids : List ℤ) (id x : ℤ) (i : ℕ)
    → get_elem? (ids ++ id ∷ []) i ≡ some x
    → ((i < length ids) × (get_elem? ids i ≡ some x)) ⊎ ((i ≡ length ids) × (x ≡ id))
append_end-cases [] id x zero e = inr (refl, cc)
append_end-cases [] id x (suc i) e = absurd (cc)
append_end-cases (y ∷ ids) id x zero e = inl (omega arith, e)
append_end-cases (y ∷ ids) id x (suc i) e = ground (arith, append_end-cases ids id x i)

module _ (queue : List (Option ℤ)) (pos end : ℕ) (ids : List ℤ) (id : ℤ) where
  push_holds :
      (i : ℕ) (x : ℤ)
      → Window queue pos end ids
      → suc (length ids) < length queue
      → ((i < length ids) × (get_elem? ids i ≡ some x)) ⊎ ((i ≡ length ids) × (x ≡ id))
      → get_elem? (modify queue end (λ old. some id)) (slot (length queue) pos i) ≡ some (some x)
  push_holds i x w room (inl (lt, e)) =
      let ne : end ≢ slot (length queue) pos i = λ same.
        slot_inj (length queue) pos i (length ids) w.in_range lt w.has_room (sym same ∙ w.end_is) in
      get_elem?-modify_ne queue end (slot (length queue) pos i) (λ old. some id) ne ∙ w.holds i x e
  push_holds i x w room (inr (last, same)) =
      let at_end : slot (length queue) pos i ≡ end =
        ap (slot (length queue) pos) last ∙ sym w.end_is in
      let inside : end < length queue =
        rw w.end_is (slot_lt (length queue) pos (length ids) w.in_range w.has_room) in
      let (old, here) = get_elem?_total queue end inside in
      rw (at_end, same) (get_elem?-modify_self queue end (λ old. some id) old here)

  Window-push :
      Window queue pos end ids
      → suc (length ids) < length queue
      → Window (modify queue end (λ old. some id)) pos ((end + 1) % length queue) (ids ++ id ∷ [])
  Window-push w room =
      let size = length-modify queue end (λ old. some id) in
      let longer = length-append ids (id ∷ []) in
      record {
        in_range = omega (arith, w.in_range, size);
        has_room = omega (arith, room, size, longer);
        end_is =
            ap (λ (e : ℕ). (e + 1) % length queue) w.end_is
            ∙ slot-next (length queue) pos (length ids) w.in_range room
            ∙ ground (arith, size, longer);
        holds = λ i x e. rw size (push_holds i x w room (append_end-cases ids id x i e));
      }

module _ {S : Type 0} (p : Proxy S) where
  open p use {receive, handle, connections_updated}

  poll_loop-take_turns :
      (fuel : ℕ) (queue : List (Option ℤ)) (pos end : ℕ) (ids : List ℤ) (s : S)
      → Window queue pos end ids
      → poll_loop p fuel queue pos end s ≡ take_turns p fuel ids s
  unfolding poll_loop take_turns
  poll_loop-take_turns zero queue pos end ids s w = refl
  poll_loop-take_turns (suc fuel) queue pos end [] s w =
      let same : pos ≡ end = sym (w.end_is ∙ slot_zero (length queue) pos w.in_range) in
      rw (same, ==_refl end, poll_loop) refl
  poll_loop-take_turns (suc fuel) queue pos end (id ∷ ids) s w =
      elim (Option-cases (receive id s)) [
        | inl quiet ↦
            rw (Window-ne w, Window-here w, quiet, poll_loop, take_turns)
              (poll_loop-take_turns fuel queue ((pos + 1) % length queue) end ids s (Window-pop w))
        | inr (message, received) ↦
            let next = (pos + 1) % length queue in
            let pushed = Window-push queue next end ids id (Window-pop w) w.has_room in
            elim (Bool-cases (is_empty message.0)) [
              | inl no_parts ↦
                  rw (Window-ne w, Window-here w, received, no_parts, poll_loop, take_turns)
                    (poll_loop-take_turns fuel _ next _ (ids ++ id ∷ []) message.1 pushed)
              | inr parts ↦
                  elim (Bool-cases (connections_updated (handle id message.0 message.1))) [
                    | inl stale ↦
                        rw
                          (
                            Window-ne w,
                            Window-here w,
                            received,
                            parts,
                            stale,
                            poll_loop,
                            take_turns,
                          )
                          refl
                    | inr fresh ↦
                        rw
                          (
                            Window-ne w,
                            Window-here w,
                            received,
                            parts,
                            fresh,
                            poll_loop,
                            take_turns,
                          )
                          (poll_loop-take_turns fuel _ next _ (ids ++ id ∷ [])
                            (handle id message.0 message.1) pushed)
                  ]
            ]
      ]

get_elem?-map-some :
    (ids : List ℤ) (i : ℕ) (id : ℤ)
    → get_elem? ids i ≡ some id
    → get_elem? (map some ids) i ≡ some (some id)
get_elem?-map-some [] i id e = absurd (cc)
get_elem?-map-some (x ∷ ids) zero id e = ap some e
get_elem?-map-some (x ∷ ids) (suc i) id e = get_elem?-map-some ids i id e

length-fill_queue : (ids : List ℤ) → length (fill_queue ids) ≡ suc (length ids)
length-fill_queue [] = refl
length-fill_queue (x ∷ ids) = omega (arith, length-fill_queue ids)

fill_queue-Window : (ids : List ℤ) → Window (fill_queue ids) 0 (length (fill_queue ids) - 1) ids
fill_queue-Window ids =
    let size = length-fill_queue ids in
    record {
      in_range = omega arith;
      has_room = omega arith;
      end_is = ground arith;
      holds = λ i id e.
          let lt = get_elem?-lt ids i id e in
          let here : slot (length (fill_queue ids)) 0 i ≡ i = ground arith in
          rw here (
            get_elem?-append_left (map some ids) (none ∷ []) i (omega (arith, length-map ids some))
            ∙ get_elem?-map-some ids i id e);
    }

-- The circular buffer is a queue: for any connections, whatever arrives and however it is handled, the
-- loop handles the same messages in the same order as `take_turns`, which has no pointers, and ends as
-- it does.
pub poll_messages-take_turns :
    {S : Type 0} (p : Proxy S) (fuel : ℕ) (ids : List ℤ) (s : S)
    → poll_messages p fuel ids s ≡ take_turns p fuel ids s
unfolding poll_messages
poll_messages-take_turns p fuel ids s =
    poll_loop-take_turns p fuel (fill_queue ids) 0 (length (fill_queue ids) - 1) ids s
      (fill_queue-Window ids)

take_turns-stops :
    {S : Type 0} (p : Proxy S) (pending : S → ℕ) (fuel : ℕ) (ids : List ℤ) (s : S)
    → ((id : ℤ) (t : S) (message : List Bytes × S)
        → p.receive id t ≡ some message
        → pending message.1 < pending t)
    → ((id : ℤ) (parts : List Bytes) (t : S) → pending (p.handle id parts t) ≤ pending t)
    → length ids + pending s < fuel
    → (t : S) × (take_turns p fuel ids s ≡ stopped t)
unfolding take_turns
take_turns-stops p pending zero ids s taken kept h = absurd (omega arith)
take_turns-stops p pending (suc fuel) [] s taken kept h = (s, refl)
take_turns-stops p pending (suc fuel) (id ∷ ids) s taken kept h =
    let queued = length-append ids (id ∷ []) in
    elim (Option-cases (p.receive id s)) [
      | inl quiet ↦
          rw (quiet, take_turns)
            (take_turns-stops p pending fuel ids s taken kept (omega (arith, h)))
      | inr (message, received) ↦
          let less = taken id s message received in
          let s' = p.handle id message.0 message.1 in
          let no_more = kept id message.0 message.1 in
          elim (Bool-cases (is_empty message.0)) [
            | inl no_parts ↦
                rw (received, no_parts, take_turns)
                  (take_turns-stops p pending fuel (ids ++ id ∷ []) message.1 taken kept
                    (omega (arith, h, less, queued)))
            | inr parts ↦ elim (Bool-cases (p.connections_updated s')) [
              | inl stale ↦ rw (received, parts, stale, take_turns) (s', refl)
              | inr fresh ↦
                  rw (received, parts, fresh, take_turns)
                    (take_turns-stops p pending fuel (ids ++ id ∷ []) s' taken kept
                      (omega (arith, h, less, no_more, queued)))
            ]
          ]
    ]

-- If a bounded number of messages is pending, so that each that is received makes it less and handling
-- one does not make it more, the loop stops, after at most one round for each connection and message.
pub poll_messages-stops :
    {S : Type 0} (p : Proxy S) (pending : S → ℕ) (ids : List ℤ) (s : S)
    → ((id : ℤ) (t : S) (message : List Bytes × S)
        → p.receive id t ≡ some message
        → pending message.1 < pending t)
    → ((id : ℤ) (parts : List Bytes) (t : S) → pending (p.handle id parts t) ≤ pending t)
    → (t : S) × (poll_messages p (suc (length ids + pending s)) ids s ≡ stopped t)
poll_messages-stops p pending ids s taken kept =
    rw (poll_messages-take_turns p (suc (length ids + pending s)) ids s)
      (take_turns-stops p pending (suc (length ids + pending s)) ids s taken kept (omega arith))
