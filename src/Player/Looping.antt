-- ===== src/Player/Looping.antt =====
-- A looped bag without messages, and single steps: onPlaybackTick, reopenAndSeek and stepForward of
-- rqml_recorder/src/bag_player_engine.cpp.
use hector_recorder.Common.{
  ℕ, zero, suc, String, true, false, not, ◌≡◌, refl, ap, ◌∙◌, List, none, some, Result, ok, throw,
  if_both, is_empty,
}
use hector_recorder.Player.{Rosbag, Doubles, Player}
use hector_recorder.Player.Loading.{reopened, reopen_and_seek, expand_home, filtered}
use hector_recorder.Player.Playing.{
  continues, restarted, from_pending, after_round, starts, tick_loop, on_playback_tick,
}

-- A bag that can be opened again and again, and in which, from any time on, no message is left after
-- the filter.
pub record IsEmptyBag {R Q : Type 0} (w : Rosbag R Q) (filter : List String)
    (path storage_id : String) : Type 0 where
  pub unread : R
  pub opens : w.open_bag (expand_home w.home path) storage_id ≡ ok unread
  pub seeks :
      (ns : ℕ)
      → (r : R) × (w.seek_to ns (filtered w filter unread) ≡ ok r)
        × (w.has_next r ≡ false)
        × (w.close r ≡ ok tt)

module _ {R Q D : Type 0} (w : Rosbag R Q) (d : Doubles D) (filter : List String)
    (path storage_id : String) where
  record Circles (p : Player R Q D) : Type 0 where
    loops : p.looping ≡ true
    filters : p.active_filter ≡ filter
    plays_path : p.bag.path ≡ path
    plays_storage : p.bag.storage_id ≡ storage_id
    nothing : p.pending_msg ≡ none
    at : R
    holds : p.reader ≡ some at
    ended : w.has_next at ≡ false
    closes : w.close at ≡ ok tt

  reopened-Circles :
      (o : Result R) (r : R) (p : Player R Q D)
      → o ≡ ok r
      → w.has_next r ≡ false
      → w.close r ≡ ok tt
      → Circles p
      → Circles (reopened w o p)
  reopened-Circles (throw e) r p h n k c = cc
  reopened-Circles (ok r') r p h n k c = record {
    loops = c.loops;
    filters = c.filters;
    plays_path = c.plays_path;
    plays_storage = c.plays_storage;
    nothing = c.nothing;
    at = r;
    holds = ap (λ (o : Result R). (reopened w o p).reader) h;
    ended = n;
    closes = k;
  }

  reopen_and_seek-Circles :
      (empty : IsEmptyBag w filter path storage_id) (target_ns : ℕ) (p : Player R Q D)
      → Circles p
      → Circles (reopen_and_seek w target_ns p)
  unfolding reopen_and_seek
  reopen_and_seek-Circles empty target_ns p c =
      let (r, s, n, k) = empty.seeks target_ns in
      if_both Circles (is_empty p.bag.path) p _ c (
        reopened-Circles _ r p
          (rw (c.holds, c.closes, c.plays_path, c.plays_storage, empty.opens, c.filters, s) refl) n
          k c)

  round_continues :
      (now : ℕ × ℕ) (p : Player R Q D)
      → Circles p
      → from_pending w d p.pending_msg now p ≡ continues (restarted w d now.1 p)
  round_continues now p c = rw (c.nothing, c.holds, c.ended, c.loops) refl

  tick_loop-Circles :
      (empty : IsEmptyBag w filter path storage_id) (fuel : ℕ) (clocks : ℕ → ℕ × ℕ)
      (p : Player R Q D)
      → Circles p
      → tick_loop w d fuel clocks 0 p ≡ none
  unfolding tick_loop
  tick_loop-Circles empty zero clocks p c = refl
  tick_loop-Circles empty (suc fuel) clocks p c =
      let c' = reopen_and_seek-Circles empty p.bag.start_ns p c in
      ap (after_round w d (tick_loop w d fuel clocks) 0) (round_continues (clocks fuel) p c)
      ∙ tick_loop-Circles empty fuel clocks (restarted w d (clocks fuel).1 p) (record {
        loops = c'.loops;
        filters = c'.filters;
        plays_path = c'.plays_path;
        plays_storage = c'.plays_storage;
        nothing = c'.nothing;
        at = c'.at;
        holds = c'.holds;
        ended = c'.ended;
        closes = c'.closes;
      })

module _ {R Q D : Type 0} (w : Rosbag R Q) (d : Doubles D) where
  -- A tick of a player that loops, where the reader has come to its end and reopening and seeking the bag
  -- gives a reader that has no message after the player's filter, does not return, whatever number of
  -- rounds it is given.
  pub empty_loop_hangs :
      (fuel : ℕ) (clocks : ℕ → ℕ × ℕ) (p : Player R Q D) (r : R)
      → IsEmptyBag w p.active_filter p.bag.path p.bag.storage_id
      → p.looping ≡ true
      → p.pending_msg ≡ none
      → p.reader ≡ some r
      → w.has_next r ≡ false
      → w.close r ≡ ok tt
      → p.stopping ≡ false
      → on_playback_tick w d fuel clocks p ≡ none
  unfolding on_playback_tick
  empty_loop_hangs fuel clocks p r empty l n o h k a =
      rw (ap (λ x. starts w d x p.stopping) o ∙ ap not a) (
        tick_loop-Circles w d p.active_filter p.bag.path p.bag.storage_id empty fuel clocks p
          (record {
            loops = l;
            filters = refl;
            plays_path = refl;
            plays_storage = refl;
            nothing = n;
            at = r;
            holds = o;
            ended = h;
            closes = k;
          }))
