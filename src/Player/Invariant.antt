-- ===== src/Player/Invariant.antt =====
-- What the timer, the buffered message and the reader of a player have to do with its state.
use mathlib.Core.Path.{subst, sym}
use mathlib.Core.Option.{some_inj}
use hector_recorder.Common.{
  ℕ, zero, suc, Bool, true, false, not, ◌&&◌, ◌||◌, ◌≡◌, refl, ap, ◌∙◌, Option, none, some, Result,
  ok, throw, if_both, is_empty, ltb,
}
use hector_recorder.Player.{
  Rosbag, Doubles, Message, State, idle, loading, loaded, playing, paused, finished, Player,
}
use hector_recorder.Player.Loading.{reopened, reopen_and_seek}
use hector_recorder.Player.Playing.{
  Round, returns, continues, plays, offered, restarted, read, from_reader, from_pending,
  after_round, starts, tick_loop, on_playback_tick, waits,
}
use hector_recorder.Player.Control.{is_playing, is_paused, is_idle, is_loading}

abbrev pub buffers : Option Message → State → Bool
buffers none s = true
buffers (some m) s = is_playing s || is_paused s

abbrev pub reads : {R : Type 0} → Option R → State → Bool
reads none s = true
reads (some r) s = not (is_idle s)

-- The timer is active exactly in "playing"; a message is buffered only in "playing" and "paused"; in
-- "idle" no bag is open; "loading" is over when a call returns.
pub record Consistent {R Q D : Type 0} (p : Player R Q D) : Type 0 where
  pub timer : p.timer_active ≡ is_playing p.state
  pub buffered : buffers p.pending_msg p.state ≡ true
  pub open_only : reads p.reader p.state ≡ true
  pub settled : is_loading p.state ≡ false
  pub awake : p.stopping ≡ false

-- What the loop of the timer keeps until it ends.
record Running {R Q D : Type 0} (p : Player R Q D) : Type 0 where
  active : p.timer_active ≡ true
  runs : p.state ≡ playing
  awake : p.stopping ≡ false

pub reads_playing : {R : Type 0} (o : Option R) → reads o playing ≡ true
reads_playing none = refl
reads_playing (some r) = refl

pub buffers_playing : (o : Option Message) → buffers o playing ≡ true
buffers_playing none = refl
buffers_playing (some m) = refl

pub buffers_paused : (o : Option Message) → buffers o paused ≡ true
buffers_paused none = refl
buffers_paused (some m) = refl

pub reads_paused : {R : Type 0} (o : Option R) → reads o paused ≡ true
reads_paused none = refl
reads_paused (some r) = refl

playing_from : (s : State) → is_playing s ≡ true → s ≡ playing
playing_from playing h = refl
playing_from idle h = cc
playing_from loading h = cc
playing_from loaded h = cc
playing_from paused h = cc
playing_from finished h = cc

module _ {R Q D : Type 0} (w : Rosbag R Q) (d : Doubles D) where
  reopened-Running : (r : Result R) (p : Player R Q D) → Running p → Running (reopened w r p)
  reopened-Running (throw e) p c = record { active = c.active; runs = c.runs; awake = c.awake }
  reopened-Running (ok r) p c = record { active = c.active; runs = c.runs; awake = c.awake }

  abbrev RoundOk : Round (Player R Q D) → Type 0
  RoundOk (returns p) = Consistent p
  RoundOk (continues p) = Running p
  RoundOk (plays p) = Running p

  offered-RoundOk :
      (m : Message) (now : ℕ × ℕ) (p : Player R Q D) → Running p → RoundOk (offered w d m now p)
  offered-RoundOk m (now, later) p c =
      if_both RoundOk
        (not p.position.first_message && waits d p.rate p.position m.recv_timestamp now)
        (returns (record p { pending_msg = some m })) _
        (record {
          timer = c.active ∙ ap is_playing (sym c.runs);
          buffered = ap (λ s. buffers (some m) s) c.runs;
          open_only = ap (λ s. reads p.reader s) c.runs ∙ reads_playing p.reader;
          settled = ap is_loading c.runs;
          awake = c.awake;
        })
        (record { active = c.active; runs = c.runs; awake = c.awake })

  read-RoundOk :
      (o : Option Message × R) (now : ℕ × ℕ) (p : Player R Q D)
      → Running p
      → RoundOk (read w d o now p)
  read-RoundOk (none, r) now p c = record { active = c.active; runs = c.runs; awake = c.awake }
  read-RoundOk (some m, r) now p c =
      offered-RoundOk m now (record p { reader = some r })
        (record { active = c.active; runs = c.runs; awake = c.awake })

  restarted-Running : (now : ℕ) (p : Player R Q D) → Running p → Running (restarted w d now p)
  unfolding reopen_and_seek
  restarted-Running now p c =
      let seeks = if_both Running (is_empty p.bag.path) p _ c (reopened-Running _ p c) in
      record { active = seeks.active; runs = seeks.runs; awake = seeks.awake }

  from_reader-RoundOk :
      (o : Option R) (now : ℕ × ℕ) (p : Player R Q D)
      → p.pending_msg ≡ none
      → p.reader ≡ o
      → Running p
      → RoundOk (from_reader w d o now p)
  from_reader-RoundOk none now p b e c = record {
    timer = refl;
    buffered = ap (λ m. buffers m idle) b;
    open_only = ap (λ r. reads r idle) e;
    settled = refl;
    awake = c.awake;
  }
  from_reader-RoundOk (some r) now p b e c =
      if_both RoundOk (w.has_next r) (read w d (w.read_next r) now p) _
        (read-RoundOk (w.read_next r) now p c)
        (if_both RoundOk p.looping (continues (restarted w d now.1 p)) _
          (restarted-Running now.1 p c)
          (record {
            timer = refl;
            buffered = ap (λ m. buffers m finished) b;
            open_only = ap (λ r. reads r finished) e;
            settled = refl;
            awake = c.awake;
          }))

  tick_round-RoundOk :
      (o : Option Message) (now : ℕ × ℕ) (p : Player R Q D)
      → p.pending_msg ≡ o
      → Running p
      → RoundOk (from_pending w d o now p)
  tick_round-RoundOk none now p b c = from_reader-RoundOk p.reader now p b refl c
  tick_round-RoundOk (some m) now p b c =
      offered-RoundOk m now (record p { pending_msg = none })
        (record { active = c.active; runs = c.runs; awake = c.awake })

  -- What the loop of the timer ends with, if it ends.
  abbrev EndsConsistent : Option (Player R Q D) → Type 0
  EndsConsistent o = (p' : Player R Q D) → o ≡ some p' → Consistent p'

  nothing-EndsConsistent : EndsConsistent none
  nothing-EndsConsistent p' e = cc

  stays-EndsConsistent : (p : Player R Q D) → Consistent p → EndsConsistent (some p)
  stays-EndsConsistent p c p' e = subst Consistent (some_inj.0 e) c

  after_round-Consistent :
      (loop : ℕ → Player R Q D → Option (Player R Q D)) (published : ℕ) (r : Round (Player R Q D))
      → ((n : ℕ) (p : Player R Q D) → Running p → EndsConsistent (loop n p))
      → RoundOk r
      → EndsConsistent (after_round w d loop published r)
  after_round-Consistent loop published (returns p) h c = stays-EndsConsistent p c
  after_round-Consistent loop published (continues p) h c = h published p c
  after_round-Consistent loop published (plays p) h c = h (suc published) p c

  Running-Consistent : (p : Player R Q D) → Running p → Consistent p
  Running-Consistent p c = record {
    timer = c.active ∙ ap is_playing (sym c.runs);
    buffered = ap (λ s. buffers p.pending_msg s) c.runs ∙ buffers_playing p.pending_msg;
    open_only = ap (λ s. reads p.reader s) c.runs ∙ reads_playing p.reader;
    settled = ap is_loading c.runs;
    awake = c.awake;
  }

  tick_loop-Consistent :
      (fuel : ℕ) (clocks : ℕ → ℕ × ℕ) (published : ℕ) (p : Player R Q D)
      → Running p
      → EndsConsistent (tick_loop w d fuel clocks published p)
  unfolding tick_loop
  tick_loop-Consistent zero clocks published p c = nothing-EndsConsistent
  tick_loop-Consistent (suc fuel) clocks published p c =
      if_both EndsConsistent (ltb published 100) _ (some p)
        (after_round-Consistent _ published _ (tick_loop-Consistent fuel clocks)
          (tick_round-RoundOk p.pending_msg (clocks fuel) p refl c))
        (stays-EndsConsistent p (Running-Consistent p c))

  pub on_playback_tick-Consistent :
      (fuel : ℕ) (clocks : ℕ → ℕ × ℕ) (p p' : Player R Q D)
      → p.timer_active ≡ true
      → Consistent p
      → on_playback_tick w d fuel clocks p ≡ some p'
      → Consistent p'
  unfolding on_playback_tick
  on_playback_tick-Consistent fuel clocks p p' t c =
      if_both EndsConsistent (starts w d p.reader p.stopping) (tick_loop w d fuel clocks 0 p)
        (some p)
        (tick_loop-Consistent fuel clocks 0 p
          (record { active = t; runs = playing_from p.state (sym c.timer ∙ t); awake = c.awake }))
        (stays-EndsConsistent p c) p'
