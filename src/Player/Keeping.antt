-- ===== src/Player/Keeping.antt =====
-- Every call keeps the state of a player, its timer, its buffered message and its reader in agreement.
use mathlib.Core.Path.{sym}
use hector_recorder.Common.{
  ℕ, true, false, not, ◌||◌, ◌≡◌, refl, ap, ◌∙◌, List, Option, none, some, Result, ok, throw, arith,
  if_both, if_cases, String, is_empty,
}
use hector_recorder.Player.{Rosbag, Doubles, Message, Metadata, State, idle, loaded, Player}
use hector_recorder.Player.Loading.{load, loaded_from, stop, reopened, reopen_and_seek}
use hector_recorder.Player.Playing.{publish_next_message, next_read, next_from}
use hector_recorder.Player.Control.{
  is_playing, is_paused, is_idle, is_loading, is_loaded, is_finished, play, play_from, rewound,
  pause, resume, may_seek, target_of, seek, started, step_forward,
}
use hector_recorder.Player.Invariant.{
  Consistent, buffers, reads, buffers_playing, reads_playing, buffers_paused, reads_paused,
}

module _ {R Q D : Type 0} (w : Rosbag R Q) (d : Doubles D) where
  -- What stop() leaves.
  abbrev Stopped : Player R Q D → Type 0
  Stopped p =
      (p.timer_active ≡ false)
      × (p.pending_msg ≡ none)
      × (p.reader ≡ none)
      × (p.state ≡ idle)
      × (p.stopping ≡ false)

  pub stop-Stopped : (p : Player R Q D) → p.stopping ≡ false → Stopped (stop p)
  unfolding stop
  stop-Stopped p a = ground arith

  pub Stopped-Consistent : (p : Player R Q D) → Stopped p → Consistent p
  Stopped-Consistent p s = record {
    timer = s.0 ∙ ap is_playing (sym s.3);
    buffered = ap (λ m. buffers m p.state) s.1;
    open_only = ap (λ r. reads r p.state) s.2;
    settled = ap is_loading s.3;
    awake = s.4;
  }

  loaded_from-Consistent :
      (bag_path path : _) (r : Result (R × Metadata)) (p : Player R Q D)
      → p.timer_active ≡ false
      → p.pending_msg ≡ none
      → p.stopping ≡ false
      → Consistent (loaded_from w d bag_path path r p)
  loaded_from-Consistent bag_path path (throw e) p t b a = record {
    timer = t;
    buffered = ap (λ m. buffers m idle) b;
    open_only = refl;
    settled = refl;
    awake = a;
  }
  loaded_from-Consistent bag_path path (ok (r, m)) p t b a = record {
    timer = t;
    buffered = ap (λ m. buffers m loaded) b;
    open_only = refl;
    settled = refl;
    awake = a;
  }

  reopened-Consistent :
      (r : Result R) (p : Player R Q D)
      → Consistent p
      → is_idle p.state ≡ false
      → Consistent (reopened w r p)
  reopened-Consistent (throw e) p c h = record {
    timer = c.timer;
    buffered = c.buffered;
    open_only = refl;
    settled = c.settled;
    awake = c.awake;
  }
  reopened-Consistent (ok r) p c h = record {
    timer = c.timer;
    buffered = c.buffered;
    open_only = ap not h;
    settled = c.settled;
    awake = c.awake;
  }

  pub load-Consistent :
      (bag_path : String) (p : Player R Q D) → p.stopping ≡ false → Consistent (load w d bag_path p)
  unfolding load
  load-Consistent bag_path p a =
      let s = stop-Stopped p a in
      let c = Stopped-Consistent (stop p) s in
      if_both Consistent _ _ _
        (record {
          timer = c.timer;
          buffered = c.buffered;
          open_only = c.open_only;
          settled = c.settled;
          awake = c.awake;
        })
        (loaded_from-Consistent bag_path _ _ _ s.0 s.1 s.4)

  started-Consistent :
      (now : ℕ) (p : Player R Q D) → p.stopping ≡ false → Consistent (started now p)
  started-Consistent now p a = record {
    timer = refl;
    buffered = buffers_playing p.pending_msg;
    open_only = reads_playing p.reader;
    settled = refl;
    awake = a;
  }

  pub pause-Consistent : (p : Player R Q D) → Consistent p → Consistent (pause p)
  unfolding pause
  pause-Consistent p c =
      if_both Consistent (is_playing p.state) _ p
        (record {
          timer = refl;
          buffered = buffers_paused p.pending_msg;
          open_only = reads_paused p.reader;
          settled = refl;
          awake = c.awake;
        })
        c

  pub resume-Consistent : (now : ℕ) (p : Player R Q D) → Consistent p → Consistent (resume now p)
  unfolding resume
  resume-Consistent now p c =
      if_both Consistent (is_paused p.state) _ p
        (record {
          timer = refl;
          buffered = buffers_playing p.pending_msg;
          open_only = reads_playing p.reader;
          settled = refl;
          awake = c.awake;
        })
        c

  rewound-Consistent :
      (o : Result R) (now : ℕ) (r : R) (p : Player R Q D)
      → p.reader ≡ some r
      → Consistent p
      → Consistent (rewound w o now p).1
  rewound-Consistent (throw e) now r p h c = c
  rewound-Consistent (ok r') now r p h c = record {
    timer = refl;
    buffered = buffers_playing p.pending_msg;
    open_only = refl;
    settled = refl;
    awake = c.awake;
  }

  play_from-Consistent :
      (o : Option R) (filter : List String) (now : ℕ) (p : Player R Q D)
      → p.reader ≡ o
      → Consistent p
      → Consistent (play_from w o filter now p).1
  play_from-Consistent none filter now p h c = record {
    timer = c.timer;
    buffered = c.buffered;
    open_only = c.open_only;
    settled = c.settled;
    awake = c.awake;
  }
  play_from-Consistent (some r) filter now p h c =
      if_both {A = _ × Player R Q D} (λ x. Consistent x.1) (is_playing p.state) (ok tt, p) _ c
        (if_both {A = _ × Player R Q D} (λ x. Consistent x.1)
          (is_loaded p.state || is_finished p.state) _ _
          (rewound-Consistent _ now _ _ refl (record {
            timer = c.timer;
            buffered = c.buffered;
            open_only = sym (ap (λ o. reads o p.state) h) ∙ c.open_only;
            settled = c.settled;
            awake = c.awake;
          }))
          (started-Consistent now p c.awake))

  pub play-Consistent :
      (filter : List String) (now : ℕ) (p : Player R Q D)
      → Consistent p
      → Consistent (play w filter now p).1
  unfolding play
  play-Consistent filter now p c = play_from-Consistent p.reader filter now p refl c

  may_seek_awake :
      (o : Option R) (s : State) → may_seek o s ≡ true → reads o s ≡ true → is_idle s ≡ false
  may_seek_awake none s h c = ground arith
  may_seek_awake (some r) s h c = ground arith

  reopen_and_seek-Consistent :
      (target_ns : ℕ) (p : Player R Q D)
      → Consistent p
      → is_idle p.state ≡ false
      → Consistent (reopen_and_seek w target_ns p)
  unfolding reopen_and_seek
  reopen_and_seek-Consistent target_ns p c h =
      if_both Consistent (is_empty p.bag.path) p _ c (reopened-Consistent _ p c h)

  pub seek-Consistent :
      (seconds : D) (now : ℕ) (p : Player R Q D)
      → Consistent p
      → Consistent (seek d w seconds now p)
  unfolding seek
  seek-Consistent seconds now p c =
      if_cases Consistent (may_seek p.reader p.state) _ p
        (λ h.
          let c' =
            reopen_and_seek-Consistent
              (target_of p.bag.start_ns p.bag.end_ns (d.nanoseconds seconds))
              (record p { pending_msg = none })
              (record {
                timer = c.timer;
                buffered = refl;
                open_only = c.open_only;
                settled = c.settled;
                awake = c.awake;
              })
              (may_seek_awake p.reader p.state h c.open_only) in
          record {
            timer = c'.timer;
            buffered = c'.buffered;
            open_only = c'.open_only;
            settled = c'.settled;
            awake = c'.awake;
          })
        (λ h. c)

  next_read-Consistent :
      (o : Option Message × R) (r : R) (p : Player R Q D)
      → p.reader ≡ some r
      → Consistent p
      → Consistent (next_read w o p).1
  next_read-Consistent (none, r') r p h c = record {
    timer = c.timer;
    buffered = c.buffered;
    open_only = sym (ap (λ o. reads o p.state) h) ∙ c.open_only;
    settled = c.settled;
    awake = c.awake;
  }
  next_read-Consistent (some m, r') r p h c = record {
    timer = c.timer;
    buffered = c.buffered;
    open_only = sym (ap (λ o. reads o p.state) h) ∙ c.open_only;
    settled = c.settled;
    awake = c.awake;
  }

  next_from-Consistent :
      (o : Option R) (p : Player R Q D)
      → p.reader ≡ o
      → Consistent p
      → Consistent (next_from w o p).1
  next_from-Consistent none p h c = c
  next_from-Consistent (some r) p h c =
      if_both {A = _ × Player R Q D} (λ x. Consistent x.1) (w.has_next r) _ (false, p)
        (next_read-Consistent (w.read_next r) r p h c) c

  pub step_forward-Consistent : (p : Player R Q D) → Consistent p → Consistent (step_forward w p).1
  unfolding step_forward publish_next_message
  step_forward-Consistent p c =
      if_both {A = _ × Player R Q D} (λ x. Consistent x.1) (is_paused p.state || is_loaded p.state)
        _ (false, p) (next_from-Consistent p.reader p refl c) c

  -- What changes only a setting.
  pub same_control :
      (p p' : Player R Q D)
      → p'.timer_active ≡ p.timer_active
      → p'.pending_msg ≡ p.pending_msg
      → p'.reader ≡ p.reader
      → p'.state ≡ p.state
      → p'.stopping ≡ p.stopping
      → Consistent p
      → Consistent p'
  same_control p p' t b r s a c = record {
    timer = t ∙ c.timer ∙ ap is_playing (sym s);
    buffered = rw (b, s) c.buffered;
    open_only = rw (r, s) c.open_only;
    settled = ap is_loading s ∙ c.settled;
    awake = a ∙ c.awake;
  }
