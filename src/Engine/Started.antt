-- ===== src/Engine/Started.antt =====
-- startRecording keeps the bag, the subscriptions and the statistics of a recorder of the plugin in
-- agreement, also where it fails half-way.
use mathlib.Core.Path.{subst, sym}
use mathlib.Core.Bool.{true≢false}
use hector_recorder.Common.{
  ℕ, String, ◌<>◌, true, false, not, ◌≡◌, refl, ap, ◌∙◌, List, [], ◌∷◌, Option, none, some, Result,
  ok, throw, arith, if_both, if_cases, null,
}
use hector_recorder.Common.Map
use hector_recorder.Common.Map.{Map}
use hector_recorder.Engine.{State, TopicStats, created, Writer, Doubles, World, Engine}
use hector_recorder.Engine.Starting.{
  no_stats, call_writer, is_idle, cleaned, new_writer, subscribe_as, subscribe_typed, subscribe_all,
  closed_empty, begun, opened, with_directory, start_recording,
}
use hector_recorder.Engine.Control.{in_pause, is_open}
use hector_recorder.Engine.Invariant.{
  Logged, LoggedIn, empty-Logged, created-Logged, subscribed-Logged,
}
use hector_recorder.Engine.Keeping.{Consistent, same_control, is_open-call_writer}

module _ {Q D : Type 0} (w : World Q) (d : Doubles D) where
  -- What holds while startRecording subscribes to topics.
  pub record Collects (e : Engine Q D) : Type 0 where
    pub flag : e.is_paused ≡ false
    pub awake : e.stopping ≡ false
    pub timer : e.stats_timer_active ≡ false
    pub still : is_idle e.state ≡ true
    pub has_bag : is_open e.writer ≡ true
    pub logged : LoggedIn d e.subscriptions e.topic_stats e.total_message_count e.writer

  created_LoggedIn :
      (name type : String) (n : ℕ) (o : Option Writer) (subs : Map (String × Q))
      (stats : Map (TopicStats D)) (total : ℕ)
      → is_open o ≡ true
      → LoggedIn d subs stats total o
      → LoggedIn d subs
          (Map.insert name
            (record (Map.get_or name (no_stats d) stats) {
              type = type;
              publisher_count = n;
              window_start = w.now;
            })
            stats)
          total
          (call_writer (created name type) o)
  created_LoggedIn name type n none subs stats total h l = absurd (true≢false (sym h))
  created_LoggedIn name type n (some writer) subs stats total h l =
      created-Logged d name type n w.now subs stats total writer.calls l

  subscribed_LoggedIn :
      (name type : String) (v : String × Q) (o : Option Writer) (subs : Map (String × Q))
      (stats : Map (TopicStats D)) (total : ℕ)
      → is_open o ≡ true
      → LoggedIn d subs stats total (call_writer (created name type) o)
      → LoggedIn d (Map.insert name v subs) stats total (call_writer (created name type) o)
  subscribed_LoggedIn name type v none subs stats total h l = absurd (true≢false (sym h))
  subscribed_LoggedIn name type v (some writer) subs stats total h l =
      subscribed-Logged d name type v subs stats total writer.calls l

  subscribe_as-Collects :
      (name type : String) (e : Engine Q D) → Collects e → Collects (subscribe_as w d name type e)
  unfolding subscribe_as
  subscribe_as-Collects name type e c =
      let made =
        created_LoggedIn name type _ e.writer e.subscriptions e.topic_stats e.total_message_count
          c.has_bag c.logged in
      if_both Collects (not (w.create_topic name)) e _ c (
        if_both Collects (w.can_subscribe name) _ _
          (record {
            flag = c.flag;
            awake = c.awake;
            timer = c.timer;
            still = c.still;
            has_bag = is_open-call_writer (created name type) e.writer ∙ c.has_bag;
            logged =
                subscribed_LoggedIn name type _ e.writer e.subscriptions _ e.total_message_count
                  c.has_bag made;
          })
          (record {
            flag = c.flag;
            awake = c.awake;
            timer = c.timer;
            still = c.still;
            has_bag = is_open-call_writer (created name type) e.writer ∙ c.has_bag;
            logged = made;
          }))

  subscribe_typed-Collects :
      (name : String) (types : Option (List String)) (e : Engine Q D)
      → Collects e
      → Collects (subscribe_typed w d name types e)
  subscribe_typed-Collects name none e c = c
  subscribe_typed-Collects name (some []) e c = c
  subscribe_typed-Collects name (some (type ∷ types)) e c = subscribe_as-Collects name type e c

  pub subscribe_all-Collects :
      (topics : List String) (e : Engine Q D) → Collects e → Collects (subscribe_all w d topics e)
  unfolding subscribe_all
  subscribe_all-Collects [] e c = c
  subscribe_all-Collects (topic ∷ topics) e c =
      subscribe_all-Collects topics _ (subscribe_typed-Collects (cleaned topic) _ e c)

  idle_unpaused : (s : State) → is_idle s ≡ true → in_pause s ≡ false
  idle_unpaused s h = ground arith

  null_empty : {A : Type 0} (xs : List A) → null xs ≡ true → xs ≡ []
  null_empty [] h = refl
  null_empty (x ∷ xs) h = cc

  closed_empty-Consistent :
      (r : Result (Unit {0})) (e : Engine Q D)
      → e.subscriptions ≡ []
      → Collects e
      → Consistent d (closed_empty w d r e).1
  closed_empty-Consistent (throw what) e h c = record {
    flag = c.flag ∙ sym (idle_unpaused e.state c.still);
    awake = c.awake;
    timer = c.timer ∙ ap not (sym c.still);
    quiet = λ i. h;
    open_bag = λ i. c.has_bag;
    logged = c.logged;
  }
  closed_empty-Consistent (ok u) e h c = record {
    flag = c.flag ∙ sym (idle_unpaused e.state c.still);
    awake = c.awake;
    timer = c.timer ∙ ap not (sym c.still);
    quiet = λ i. h;
    open_bag = λ i. absurd (true≢false (sym c.still ∙ i));
    logged = h;
  }

  begun-Consistent : (e : Engine Q D) → Collects e → Consistent d (begun w d e).1
  begun-Consistent e c =
      if_cases {A = _ × Engine Q D} (λ x. Consistent d x.1) (null e.subscriptions) _ _
        (λ h.
          closed_empty-Consistent w.close_writer
            (record e { error_message = "Failed to subscribe to any topics" })
            (null_empty e.subscriptions h)
            (record {
              flag = c.flag;
              awake = c.awake;
              timer = c.timer;
              still = c.still;
              has_bag = c.has_bag;
              logged = c.logged;
            }))
        (λ h. record {
          flag = c.flag;
          awake = c.awake;
          timer = refl;
          quiet = λ i. absurd (true≢false (sym i));
          open_bag = λ i. c.has_bag;
          logged = c.logged;
        })

  -- The recorder that startRecording subscribes topics for.
  pub emptied-Collects :
      (bag_path : String) (e : Engine Q D)
      → is_idle e.state ≡ true
      → Consistent d e
      → Collects (record e {
        writer = some (new_writer w bag_path e.recorded_by);
        current_bag_path = bag_path;
        topic_stats = [];
        total_message_count = 0;
        total_size = d.zero;
        is_paused = false;
        stopping = false;
      })
  unfolding new_writer
  emptied-Collects bag_path e h c = record {
    flag = refl;
    awake = refl;
    timer = c.timer ∙ ap not h;
    still = h;
    has_bag = refl;
    logged = subst (λ subs. Logged d subs [] 0 []) (sym (c.quiet h)) (empty-Logged d);
  }

  opened-Consistent :
      (r : Result (Unit {0})) (topics : List String) (bag_path : String) (e : Engine Q D)
      → is_idle e.state ≡ true
      → Consistent d e
      → Consistent d (opened w d r topics bag_path e).1
  unfolding opened
  opened-Consistent (throw what) topics bag_path e h c = record {
    flag = c.flag;
    awake = c.awake;
    timer = c.timer;
    quiet = c.quiet;
    open_bag = λ i. absurd (true≢false (sym h ∙ i));
    logged = c.quiet h;
  }
  opened-Consistent (ok u) topics bag_path e h c =
      begun-Consistent _ (subscribe_all-Collects topics _ (emptied-Collects bag_path e h c))

  with_directory-Consistent :
      (o : Option String) (topics : List String) (dir : String) (e : Engine Q D)
      → is_idle e.state ≡ true
      → Consistent d e
      → Consistent d (with_directory w d o topics dir e).1
  with_directory-Consistent (some what) topics dir e h c =
      same_control d e _ refl refl refl refl refl refl c.logged c
  with_directory-Consistent none topics dir e h c =
      opened-Consistent _ topics (dir <> w.stamp) e h c

  pub start_recording-Consistent :
      (topics : List String) (output_dir : String) (e : Engine Q D)
      → Consistent d e
      → Consistent d (start_recording w d topics output_dir e).1
  unfolding start_recording
  start_recording-Consistent topics output_dir e c =
      if_cases {A = _ × Engine Q D} (λ x. Consistent d x.1) (not (is_idle e.state)) _ _
        (λ h. same_control d e _ refl refl refl refl refl refl c.logged c)
        (λ h.
          if_both {A = _ × Engine Q D} (λ x. Consistent d x.1) (null topics) _ _
            (same_control d e _ refl refl refl refl refl refl c.logged c)
            (with_directory-Consistent _ topics _ (record e { error_message = ""; node = true })
              (ground arith) (same_control d e _ refl refl refl refl refl refl c.logged c)))
