-- ===== src/Player/Seeking.antt =====
-- Seeking and single steps: seek, reopenAndSeek and stepForward of
-- rqml_recorder/src/bag_player_engine.cpp.
use mathlib.Core.Option.{some_inj}
use hector_recorder.Common.{
  ℕ, ◌≤◌, ℤ, pos, negsuc, String, ◌<>◌, true, false, not, ◌≡◌, refl, ap, ◌∙◌, List, ◌∷◌, ◌++◌,
  Option, none, some, Result, ok, throw, arith, if_both, is_empty, null,
}
use hector_recorder.Player.{Rosbag, Doubles, Message, Player}
use hector_recorder.Player.Loading.{reopened, reopen_and_seek, expand_home, close_reader}
use hector_recorder.Player.Playing.{message_events, publish_next_message, next_read}
use hector_recorder.Player.Control.{is_paused, target_of, may_seek, seek, step_forward}
use hector_recorder.Player.Order.{IsReader, queue}

target_within :
    (start end : ℕ) (offset : ℤ)
    → start ≤ end
    → (start ≤ target_of start end offset) × (target_of start end offset ≤ end)
unfolding target_of
target_within start end (pos n) h = ground arith
target_within start end (negsuc n) h = (omega arith, h)

module _ {R Q D : Type 0} (w : Rosbag R Q) (d : Doubles D) where
  reopened_keeps :
      (o : Result R) (p : Player R Q D)
      → ((reopened w o p).pending_msg ≡ p.pending_msg) × ((reopened w o p).state ≡ p.state)
  reopened_keeps (throw e) p = (refl, refl)
  reopened_keeps (ok r) p = (refl, refl)

  reopen_and_seek_keeps :
      (target_ns : ℕ) (p : Player R Q D)
      → ((reopen_and_seek w target_ns p).pending_msg ≡ p.pending_msg)
        × ((reopen_and_seek w target_ns p).state ≡ p.state)
  unfolding reopen_and_seek
  reopen_and_seek_keeps target_ns p =
      if_both (λ (x : Player R Q D). (x.pending_msg ≡ p.pending_msg) × (x.state ≡ p.state))
        (is_empty p.bag.path) p _ (refl, refl) (reopened_keeps _ p)

  reopen_fails :
      (target_ns : ℕ) (p : Player R Q D) (e : String)
      → is_empty p.bag.path ≡ false
      → close_reader w p.reader ≡ ok tt
      → w.open_bag (expand_home w.home p.bag.path) p.bag.storage_id ≡ throw e
      → ((reopen_and_seek w target_ns p).reader ≡ none)
        × ((reopen_and_seek w target_ns p).error_message ≡ "Failed to reopen bag: " <> e)
  unfolding reopen_and_seek
  reopen_fails target_ns p e h c o = rw (h, c, o) (refl, refl)

  -- A player that may seek lands between the start and the end of the bag, wherever the request
  -- points; a buffered message is dropped, the next one is to be played at once, and the state stays
  -- what it was. It stays so even where the bag cannot be opened again, and then no bag is open.
  pub seek_lands :
      (seconds : D) (now : ℕ) (p : Player R Q D)
      → p.bag.start_ns ≤ p.bag.end_ns
      → may_seek p.reader p.state ≡ true
      → let p' = seek d w seconds now p in
        (p.bag.start_ns ≤ p'.position.current_bag_time_ns)
        × (p'.position.current_bag_time_ns ≤ p.bag.end_ns)
        × (p'.pending_msg ≡ none)
        × (p'.position.first_message ≡ true)
        × (p'.state ≡ p.state)
        × ((e : String)
            → is_empty p.bag.path ≡ false
            → close_reader w p.reader ≡ ok tt
            → w.open_bag (expand_home w.home p.bag.path) p.bag.storage_id ≡ throw e
            → (p'.reader ≡ none) × (p'.error_message ≡ "Failed to reopen bag: " <> e))
  unfolding seek
  seek_lands seconds now p h m =
      let target = target_of p.bag.start_ns p.bag.end_ns (d.nanoseconds seconds) in
      let p0 = record p { pending_msg = none } in
      let (low, high) = target_within p.bag.start_ns p.bag.end_ns (d.nanoseconds seconds) h in
      let (b, s) = reopen_and_seek_keeps target p0 in
      rw m (low, high, b, refl, s, reopen_fails target p0)

  next_read-some :
      (o : Option Message × R) (m : Message) (p : Player R Q D)
      → o.0 ≡ some m
      → next_read w o p ≡ (
        true,
        record p {
          reader = some o.1;
          position = record p.position { current_bag_time_ns = m.recv_timestamp };
          events = p.events ++ message_events p.outputs m;
        },
      )
  next_read-some (none, r) m p h = cc
  next_read-some (some m', r) m p h =
      ap
        (λ (x : Message). (
          true,
          record p {
            reader = some r;
            position = record p.position { current_bag_time_ns = x.recv_timestamp };
            events = p.events ++ message_events p.outputs x;
          },
        ))
        (some_inj.0 h)

  -- A single step of a paused player that has a message buffered plays the message behind it, without
  -- the clock; the buffered one, which comes before it in the bag, is still to be played.
  pub step_forward_overtakes :
      (rest : R → List Message) (p : Player R Q D) (r : R) (m next : Message) (ms : List Message)
      → IsReader w rest
      → is_paused p.state ≡ true
      → p.pending_msg ≡ some m
      → p.reader ≡ some r
      → rest r ≡ next ∷ ms
      → let (stepped, p') = step_forward w p in
        (stepped ≡ true)
        × (queue w d rest p ≡ m ∷ next ∷ ms)
        × (p'.events ≡ p.events ++ message_events p.outputs next)
        × (queue w d rest p' ≡ m ∷ ms)
  unfolding step_forward publish_next_message
  step_forward_overtakes rest p r m next ms reader s b o l =
      let goes : w.has_next r ≡ true = reader.of_has_next r ∙ ap (λ ms. not (null ms)) l in
      let (first, others) = reader.of_read_next r next ms l in
      let reads = next_read-some (w.read_next r) next (record p { reader = some r }) first in
      rw (s, o, goes, reads, b, l, others) (refl, refl, refl, refl)
