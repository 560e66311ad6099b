-- ===== src/Engine/Keeping.antt =====
-- Every step of a recorder of the plugin keeps its bag, its subscriptions, its statistics and its state
-- in agreement.
use mathlib.Core.Path.{sym}
use mathlib.Core.Bool.{true≢false}
use hector_recorder.Common.{
  ℕ, suc, String, true, false, not, ◌&&◌, ◌||◌, ◌≡◌, refl, ap, ◌∙◌, [], Option, none, some, Result,
  ok, throw, arith, if_both, if_cases,
}
use hector_recorder.Common.Map
use hector_recorder.Common.Map.{Map}
use hector_recorder.Engine.{TopicStats, Call, wrote, split, Writer, Doubles, World, Engine}
use hector_recorder.Engine.Starting.{no_stats, call_writer, is_idle}
use hector_recorder.Engine.Control.{
  counted, refresh_all, in_recording, in_pause, is_open, stop_recording, pause_recording,
  resume_recording, split_done, on_message,
}
use hector_recorder.Engine.Invariant.{LoggedIn, wrote-Logged, count_of-refresh_all}

pub is_open-call_writer :
    (call : Call) (o : Option Writer) → is_open (call_writer call o) ≡ is_open o
is_open-call_writer call none = refl
is_open-call_writer call (some writer) = refl

module _ {Q D : Type 0} (d : Doubles D) where
  -- The flag of the pause and the timer follow the state; in "idle" nothing is subscribed, in any other
  -- state a bag is open; the open bag, the subscriptions and the statistics agree.
  pub record Consistent (e : Engine Q D) : Type 0 where
    pub flag : e.is_paused ≡ in_pause e.state
    pub awake : e.stopping ≡ false
    pub timer : e.stats_timer_active ≡ not (is_idle e.state)
    pub quiet : is_idle e.state ≡ true → e.subscriptions ≡ []
    pub open_bag : is_idle e.state ≡ false → is_open e.writer ≡ true
    pub logged : LoggedIn d e.subscriptions e.topic_stats e.total_message_count e.writer

  pub stop_recording-Consistent : (e : Engine Q D) → Consistent e → Consistent (stop_recording d e)
  unfolding stop_recording
  stop_recording-Consistent e c = if_both Consistent (is_idle e.state || e.stopping) e _ c (record {
    flag = refl;
    awake = refl;
    timer = refl;
    quiet = λ h. refl;
    open_bag = λ h. absurd (true≢false h);
    logged = refl;
  })

  pub pause_recording-Consistent :
      (e : Engine Q D) → Consistent e → Consistent (pause_recording d e)
  unfolding pause_recording
  pause_recording-Consistent e c =
      if_cases Consistent (in_recording e.state) _ e
        (λ h.
          let busy : is_idle e.state ≡ false = ground arith in
          record {
            flag = refl;
            awake = c.awake;
            timer = c.timer ∙ ap not busy;
            quiet = λ i. absurd (true≢false (sym i));
            open_bag = λ i. c.open_bag busy;
            logged = c.logged;
          })
        (λ h. c)

  pub resume_recording-Consistent :
      (e : Engine Q D) → Consistent e → Consistent (resume_recording d e)
  unfolding resume_recording
  resume_recording-Consistent e c =
      if_cases Consistent (in_pause e.state) _ e
        (λ h.
          let busy : is_idle e.state ≡ false = ground arith in
          record {
            flag = refl;
            awake = c.awake;
            timer = c.timer ∙ ap not busy;
            quiet = λ i. absurd (true≢false (sym i));
            open_bag = λ i. c.open_bag busy;
            logged = c.logged;
          })
        (λ h. c)

  -- What leaves the control alone and keeps the log.
  pub same_control :
      (e e' : Engine Q D)
      → e'.is_paused ≡ e.is_paused
      → e'.stopping ≡ e.stopping
      → e'.stats_timer_active ≡ e.stats_timer_active
      → e'.state ≡ e.state
      → e'.subscriptions ≡ e.subscriptions
      → is_open e'.writer ≡ is_open e.writer
      → LoggedIn d e'.subscriptions e'.topic_stats e'.total_message_count e'.writer
      → Consistent e
      → Consistent e'
  same_control e e' p a t s subs o l c = record {
    flag = p ∙ c.flag ∙ ap in_pause (sym s);
    awake = a ∙ c.awake;
    timer = t ∙ c.timer ∙ ap (λ s. not (is_idle s)) (sym s);
    quiet = λ h. subs ∙ c.quiet (sym (ap is_idle s) ∙ h);
    open_bag = λ h. o ∙ c.open_bag (sym (ap is_idle s) ∙ h);
    logged = l;
  }

  split-LoggedIn :
      (o : Option Writer) (subs : Map (String × Q)) (stats : Map (TopicStats D)) (total : ℕ)
      → LoggedIn d subs stats total o
      → LoggedIn d subs stats total (call_writer split o)
  split-LoggedIn none subs stats total l = l
  split-LoggedIn (some writer) subs stats total l = record {
    subscribed = l.subscribed;
    counts = l.counts;
    totals = l.totals;
    valid = l.valid;
  }

  pub split_done-Consistent :
      (r : Result (Unit {0})) (e : Engine Q D) → Consistent e → Consistent (split_done d r e)
  split_done-Consistent (throw what) e c = same_control e _ refl refl refl refl refl refl c.logged c
  split_done-Consistent (ok u) e c =
      same_control e _ refl refl refl refl refl (is_open-call_writer split e.writer)
        (split-LoggedIn e.writer e.subscriptions e.topic_stats e.total_message_count c.logged) c

  message_LoggedIn :
      (w : World Q) (name : String) (size : ℕ) (o : Option Writer) (subs : Map (String × Q))
      (stats : Map (TopicStats D)) (total : ℕ)
      → Map.contains name subs ≡ true
      → LoggedIn d subs stats total o
      → LoggedIn d subs
          (Map.insert name (counted size (Map.get_or name (no_stats d) stats)) stats)
          (suc total)
          (call_writer (wrote name w.now) o)
  unfolding Map.contains
  message_LoggedIn w name size none subs stats total h l =
      absurd (true≢false (sym h ∙ ap (Map.contains name) l))
  message_LoggedIn w name size (some writer) subs stats total h l =
      wrote-Logged d name w.now size subs stats total writer.calls h l

  pub on_message-Consistent :
      (w : World Q) (name : String) (size : ℕ) (e : Engine Q D)
      → Map.contains name e.subscriptions ≡ true
      → Consistent e
      → Consistent (on_message d w name size e)
  unfolding on_message
  on_message-Consistent w name size e h c = if_both Consistent (e.is_paused || e.stopping) e _ c (
      if_both Consistent (is_open e.writer && not w.write) e _ c (
        same_control e _ refl refl refl refl refl (is_open-call_writer (wrote name w.now) e.writer)
          (message_LoggedIn w name size e.writer e.subscriptions e.topic_stats e.total_message_count
            h c.logged)
          c))

  pub refresh_LoggedIn :
      (now : ℕ) (o : Option Writer) (subs : Map (String × Q)) (stats : Map (TopicStats D))
      (total : ℕ)
      → LoggedIn d subs stats total o
      → LoggedIn d subs (refresh_all d now stats) total o
  refresh_LoggedIn now none subs stats total l = l
  refresh_LoggedIn now (some writer) subs stats total l = record {
    subscribed = l.subscribed;
    counts = λ name. count_of-refresh_all d name now stats ∙ l.counts name;
    totals = l.totals;
    valid = l.valid;
  }
