-- ===== src/Player/Order.antt =====
-- What one tick of the timer plays, in a bag that is not looped: onPlaybackTick of
-- rqml_recorder/src/bag_player_engine.cpp.
use mathlib.Core.Path.{sym, subst}
use mathlib.Core.Bool.{true≢false}
use mathlib.Core.List.{append-nil, append_assoc}
use hector_recorder.Common.{
  ℕ, zero, suc, ◌+◌, ◌≤◌, true, false, not, ◌&&◌, ◌≡◌, refl, ap, ◌∙◌, ◌⊎◌, inl, inr, List, [], ◌∷◌,
  ◌++◌, Option, none, some, arith, if_cases, null, length, ltb,
}
use hector_recorder.Player.{Rosbag, Doubles, Message, finished, Outputs, Event, Player}
use hector_recorder.Player.Playing.{
  Round, returns, continues, plays, shown, offered, restarted, read, from_reader, from_pending,
  after_round, starts, tick_loop, on_playback_tick, waits,
}

-- Documented behaviour of a reader: it has the messages that are left in the bag, of the topics of its
-- filter, and gives them one by one.
pub record IsReader {R Q : Type 0} (w : Rosbag R Q) (rest : R → List Message) : Type 0 where
  pub of_has_next : (r : R) → w.has_next r ≡ not (null (rest r))
  pub of_read_next :
      (r : R) (m : Message) (ms : List Message)
      → rest r ≡ m ∷ ms
      → ((w.read_next r).0 ≡ some m) × (rest (w.read_next r).1 ≡ ms)

abbrev pub shown_all : {Q : Type 0} → Outputs Q → List Message → List Event
shown_all o [] = []
shown_all o (m ∷ ms) = shown o m ++ shown_all o ms

abbrev buffered : Option Message → List Message
buffered none = []
buffered (some m) = m ∷ []

module _ {R : Type 0} (rest : R → List Message) where
  abbrev left_in : Option R → List Message
  left_in none = []
  left_in (some r) = rest r

module _ {R Q D : Type 0} (w : Rosbag R Q) (d : Doubles D) (rest : R → List Message) where
  -- The messages that are still to be played: the buffered one, and those in the bag.
  abbrev pub queue : Player R Q D → List Message
  queue p = buffered p.pending_msg ++ left_in rest p.reader

  abbrev IsOpen : Option R → Type 0
  IsOpen none = true ≡ false
  IsOpen (some r) = Unit

  abbrev Live : Player R Q D → Type 0
  Live p = (p.looping ≡ false) × IsOpen p.reader

  -- Either the bag is at its end, or a message is buffered.
  abbrev pub HasNothingDue : Player R Q D → Type 0
  HasNothingDue p =
      ((p.state ≡ finished) × (queue p ≡ [])) ⊎ ((m : Message) × (p.pending_msg ≡ some m))

  abbrev RoundPlays : List Message → List Event → Outputs Q → Round (Player R Q D) → Type 0
  RoundPlays q es o (returns p) = (q ≡ queue p) × (p.events ≡ es) × HasNothingDue p
  RoundPlays q es o (continues p) = true ≡ false
  RoundPlays q es o (plays p) =
      ((m : Message) × ((q ≡ m ∷ queue p) × (p.events ≡ es ++ shown o m)))
      × (p.outputs ≡ o)
      × Live p

  offered-RoundPlays :
      (m : Message) (now : ℕ × ℕ) (p : Player R Q D)
      → p.pending_msg ≡ none
      → Live p
      → RoundPlays (m ∷ left_in rest p.reader) p.events p.outputs (offered w d m now p)
  offered-RoundPlays m (now, later) p b l =
      if_cases (RoundPlays (m ∷ left_in rest p.reader) p.events p.outputs)
        (not p.position.first_message && waits d p.rate p.position m.recv_timestamp now)
        (returns (record p { pending_msg = some m })) _ (λ h. (refl, refl, inr (m, refl)))
        (λ h. ((m, (ap (λ o. m ∷ (buffered o ++ left_in rest p.reader)) (sym b), refl)), refl, l))

  module _ (reader : IsReader w rest) where
    read-RoundPlays :
        (o : Option Message × R) (m : Message) (ms : List Message) (now : ℕ × ℕ) (p : Player R Q D)
        → o.0 ≡ some m
        → rest o.1 ≡ ms
        → p.pending_msg ≡ none
        → p.looping ≡ false
        → RoundPlays (m ∷ ms) p.events p.outputs (read w d o now p)
    read-RoundPlays (none, r) m ms now p e l b h = cc
    read-RoundPlays (some m', r) m ms now p e l b h =
        let same : m ∷ ms ≡ m' ∷ rest r = cc in
        subst
          (λ q. RoundPlays q p.events p.outputs (offered w d m' now (record p { reader = some r })))
          (sym same) (offered-RoundPlays m' now (record p { reader = some r }) b (h, tt))

    from_reader-RoundPlays :
        (r : R) (ms : List Message) (now : ℕ × ℕ) (p : Player R Q D)
        → rest r ≡ ms
        → p.pending_msg ≡ none
        → p.reader ≡ some r
        → p.looping ≡ false
        → RoundPlays ms p.events p.outputs (from_reader w d (some r) now p)
    from_reader-RoundPlays r [] now p l b o h =
        let ended : w.has_next r ≡ false = reader.of_has_next r ∙ ap (λ ms. not (null ms)) l in
        let empty : queue p ≡ [] =
          ap (λ m. buffered m ++ left_in rest p.reader) b ∙ ap (left_in rest) o ∙ l in
        if_cases (RoundPlays [] p.events p.outputs) (w.has_next r) (read w d (w.read_next r) now p)
          _ (λ y. cc)
          (λ n.
            if_cases (RoundPlays [] p.events p.outputs) p.looping
              (continues (restarted w d now.1 p)) _ (λ y. sym y ∙ h)
              (λ n'. (sym empty, refl, inl (refl, empty))))
    from_reader-RoundPlays r (m ∷ ms) now p l b o h =
        let goes : w.has_next r ≡ true = reader.of_has_next r ∙ ap (λ ms. not (null ms)) l in
        let (first, others) = reader.of_read_next r m ms l in
        if_cases (RoundPlays (m ∷ ms) p.events p.outputs) (w.has_next r)
          (read w d (w.read_next r) now p) _
          (λ y. read-RoundPlays (w.read_next r) m ms now p first others b h) (λ n. cc)

    tick_round-RoundPlays :
        (b : Option Message) (o : Option R) (now : ℕ × ℕ) (p : Player R Q D)
        → p.pending_msg ≡ b
        → p.reader ≡ o
        → Live p
        → RoundPlays (buffered b ++ left_in rest o) p.events p.outputs (from_pending w d b now p)
    tick_round-RoundPlays none none now p b o l = absurd (true≢false (subst IsOpen o l.1))
    tick_round-RoundPlays none (some r) now p b o l =
        subst (λ x. RoundPlays (rest r) p.events p.outputs (from_reader w d x now p)) (sym o)
          (from_reader-RoundPlays r (rest r) now p refl b o l.0)
    tick_round-RoundPlays (some m) o' now p b o l =
        subst
          (λ r.
            RoundPlays (m ∷ left_in rest r) p.events p.outputs
              (offered w d m now (record p { pending_msg = none })))
          o (offered-RoundPlays m now (record p { pending_msg = none }) refl l)

    -- Why the loop ends: it has played 100 messages, or the bag is at its end, or a message is buffered.
    pub record Played (p p' : Player R Q D) (published : ℕ) (ms : List Message) : Type 0 where
      pub in_order : queue p ≡ ms ++ queue p'
      pub at_most : published + length ms ≤ 100
      pub gave : p'.events ≡ p.events ++ shown_all p.outputs ms
      pub ends : (published + length ms ≡ 100) ⊎ HasNothingDue p'

    -- The loop returns, having played some messages.
    abbrev pub LoopPlays : ℕ → Player R Q D → Option (Player R Q D) → Type 0
    LoopPlays published p o =
        (p' : Player R Q D) × ((o ≡ some p') × ((ms : List Message) × Played p p' published ms))

    after_round-LoopPlays :
        (loop : ℕ → Player R Q D → Option (Player R Q D)) (published : ℕ) (p : Player R Q D)
        (r : Round (Player R Q D))
        → suc published ≤ 100
        → ((p' : Player R Q D) → Live p' → LoopPlays (suc published) p' (loop (suc published) p'))
        → RoundPlays (queue p) p.events p.outputs r
        → LoopPlays published p (after_round w d loop published r)
    after_round-LoopPlays loop published p (returns p') h ih (q, e, n) = (
      p',
      (
        refl,
        (
          [],
          record {
            in_order = q;
            at_most = omega arith;
            gave = e ∙ sym (append-nil p.events);
            ends = inr n;
          },
        ),
      ),
    )
    after_round-LoopPlays loop published p (continues p') h ih never = absurd (true≢false never)
    after_round-LoopPlays loop published p (plays p') h ih ((m, (q, e)), o, l) =
        let (p'', (r, (ms, f))) = ih p' l in
        (
          p'',
          (
            r,
            (
              m ∷ ms,
              record {
                in_order = q ∙ ap (λ xs. m ∷ xs) f.in_order;
                at_most = omega (arith, f.at_most);
                gave =
                    f.gave
                    ∙ ap (λ es. es ++ shown_all p'.outputs ms) e
                    ∙ ap (λ x. (p.events ++ shown p.outputs m) ++ shown_all x ms) o
                    ∙ append_assoc p.events (shown p.outputs m) (shown_all p.outputs ms);
                ends = elim f.ends [ inl x ↦ inl (omega (arith, x)) | inr x ↦ inr x ];
              },
            ),
          ),
        )

    tick_loop-LoopPlays :
        (fuel : ℕ) (clocks : ℕ → ℕ × ℕ) (published : ℕ) (p : Player R Q D)
        → published ≤ 100
        → 101 ≤ fuel + published
        → Live p
        → LoopPlays published p (tick_loop w d fuel clocks published p)
    unfolding tick_loop
    tick_loop-LoopPlays zero clocks published p h k l = absurd (omega arith)
    tick_loop-LoopPlays (suc fuel) clocks published p h k l =
        if_cases (LoopPlays published p) (ltb published 100) _ (some p)
          (λ y.
            let below : suc published ≤ 100 = ground (arith, y) in
            after_round-LoopPlays (tick_loop w d fuel clocks) published p _ below
              (λ p' l'. tick_loop-LoopPlays fuel clocks (suc published) p' below (omega arith) l')
              (tick_round-RoundPlays p.pending_msg p.reader (clocks fuel) p refl refl l))
          (λ n.
            let all : published ≡ 100 = ground (arith, n) in
            (
              p,
              (
                refl,
                (
                  [],
                  record {
                    in_order = refl;
                    at_most = omega arith;
                    gave = sym (append-nil p.events);
                    ends = inl (omega arith);
                  },
                ),
              ),
            ))

    -- A tick of a player that does not loop returns within 101 rounds. It has played the next messages
    -- of the bag in their order, the one that was buffered first, and gave each, with the clock before
    -- it, to the publishers of the topics that are enabled; none is lost and none is played twice. They
    -- are at most 100, and if they are fewer, the bag is at its end and the player has finished, or
    -- a message is buffered.
    pub on_playback_tick_plays :
        (fuel : ℕ) (clocks : ℕ → ℕ × ℕ) (p : Player R Q D) (r : R)
        → p.looping ≡ false
        → p.stopping ≡ false
        → p.reader ≡ some r
        → 101 ≤ fuel
        → LoopPlays 0 p (on_playback_tick w d fuel clocks p)
    unfolding on_playback_tick
    on_playback_tick_plays fuel clocks p r h a o k =
        if_cases (LoopPlays 0 p) (starts w d p.reader p.stopping) (tick_loop w d fuel clocks 0 p)
          (some p)
          (λ y.
            tick_loop-LoopPlays fuel clocks 0 p (omega arith) (omega arith)
              (h, subst IsOpen (sym o) tt))
          (λ n.
            let goes : starts w d p.reader p.stopping ≡ true = rw (o, a) refl in
            absurd (true≢false (sym goes ∙ n)))
