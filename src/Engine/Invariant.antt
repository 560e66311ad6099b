-- ===== src/Engine/Invariant.antt =====
-- What the open bag of a recorder of the plugin, its subscriptions and its statistics have to do with
-- one another.
use hector_recorder.Common.{
  ℕ, suc, String, str_eq, Bool, true, false, ◌&&◌, ◌||◌, ◌≡◌, refl, ap, ◌∙◌, List, [], ◌∷◌, Option,
  none, some, arith, if◌then◌else◌, eq_iff,
}
use hector_recorder.Common.Map
use hector_recorder.Common.Map.{Map, contains-insert, get_or-insert}
use hector_recorder.Engine.{TopicStats, Call, created, wrote, split, Writer, Doubles}
use hector_recorder.Engine.Starting.{no_stats}
use hector_recorder.Engine.Control.{counted, refresh, refresh_all}

-- The topic was created in the writer.
abbrev pub is_created : String → List Call → Bool
is_created name [] = false
is_created name (created topic type ∷ calls) = str_eq topic name || is_created name calls
is_created name (wrote topic ns ∷ calls) = is_created name calls
is_created name (split ∷ calls) = is_created name calls

-- How many messages of the topic were written, and how many of all topics.
abbrev pub written : String → List Call → ℕ
written name [] = 0
written name (created topic type ∷ calls) = written name calls
written name (wrote topic ns ∷ calls) =
    if str_eq topic name then suc (written name calls) else written name calls
written name (split ∷ calls) = written name calls

abbrev pub all_written : List Call → ℕ
all_written [] = 0
all_written (created topic type ∷ calls) = all_written calls
all_written (wrote topic ns ∷ calls) = suc (all_written calls)
all_written (split ∷ calls) = all_written calls

-- Every message went to a topic that was created before.
abbrev pub is_valid : List Call → Bool
is_valid [] = true
is_valid (created topic type ∷ calls) = is_valid calls
is_valid (wrote topic ns ∷ calls) = is_created topic calls && is_valid calls
is_valid (split ∷ calls) = is_valid calls

module _ {D : Type 0} (d : Doubles D) where
  abbrev pub count_of : String → Map (TopicStats D) → ℕ
  count_of name stats = (Map.get_or name (no_stats d) stats).msg_count

  msg_count-if :
      (b : Bool) (s t : TopicStats D)
      → (if b then s else t).msg_count ≡ (if b then s.msg_count else t.msg_count)
  msg_count-if true s t = refl
  msg_count-if false s t = refl

  pub count_of-insert :
      (name topic : String) (s : TopicStats D) (stats : Map (TopicStats D))
      → count_of topic (Map.insert name s stats)
        ≡ (if str_eq name topic then s.msg_count else count_of topic stats)
  count_of-insert name topic s stats =
      ap (λ (x : TopicStats D). x.msg_count) (get_or-insert name topic (no_stats d) s stats)
      ∙ msg_count-if (str_eq name topic) s (Map.get_or topic (no_stats d) stats)

  pub same_count :
      (name topic : String) (stats : Map (TopicStats D))
      → str_eq name topic ≡ true
      → (Map.get_or name (no_stats d) stats).msg_count ≡ count_of topic stats
  same_count name topic stats h =
      ap (λ x. (Map.get_or x (no_stats d) stats).msg_count) ((eq_iff name topic).0 h)

  pub count_of-refresh_all :
      (name : String) (now : ℕ) (stats : Map (TopicStats D))
      → count_of name (refresh_all d now stats) ≡ count_of name stats
  unfolding refresh_all refresh Map.get_or
  count_of-refresh_all name now [] = refl
  count_of-refresh_all name now ((topic, s) ∷ stats) =
      ground (arith, count_of-refresh_all name now stats)

module _ {Q D : Type 0} (d : Doubles D) where
  pub record Logged (subscriptions : Map (String × Q)) (stats : Map (TopicStats D)) (total : ℕ)
      (calls : List Call) : Type 0 where
    pub subscribed :
        (name : String) → Map.contains name subscriptions ≡ true → is_created name calls ≡ true
    pub counts : (name : String) → count_of d name stats ≡ written name calls
    pub totals : total ≡ all_written calls
    pub valid : is_valid calls ≡ true

  -- Without a writer nothing is subscribed.
  abbrev pub LoggedIn : Map (String × Q) → Map (TopicStats D) → ℕ → Option Writer → Type 0
  LoggedIn subs stats total none = subs ≡ []
  LoggedIn subs stats total (some writer) = Logged subs stats total writer.calls

  pub empty-Logged : Logged [] [] 0 []
  unfolding Map.contains Map.get_or
  empty-Logged = record {
    subscribed = λ name h. cc;
    counts = λ name. refl;
    totals = refl;
    valid = refl;
  }

  pub wrote-Logged :
      (name : String) (ns size : ℕ) (subs : Map (String × Q)) (stats : Map (TopicStats D))
      (total : ℕ) (calls : List Call)
      → Map.contains name subs ≡ true
      → Logged subs stats total calls
      → Logged subs
          (Map.insert name (counted size (Map.get_or name (no_stats d) stats)) stats)
          (suc total)
          (wrote name ns ∷ calls)
  wrote-Logged name ns size subs stats total calls h l =
      let s = counted size (Map.get_or name (no_stats d) stats) in
      record {
        subscribed = l.subscribed;
        counts = λ topic. ground (
          arith,
          count_of-insert d name topic s stats,
          l.counts topic,
          same_count d name topic stats,
        );
        totals = ap suc l.totals;
        valid = ground (arith, l.subscribed name h, l.valid);
      }

  pub created-Logged :
      (name type : String) (n now : ℕ) (subs : Map (String × Q)) (stats : Map (TopicStats D))
      (total : ℕ) (calls : List Call)
      → Logged subs stats total calls
      → Logged subs
          (Map.insert name
            (record (Map.get_or name (no_stats d) stats) {
              type = type;
              publisher_count = n;
              window_start = now;
            })
            stats)
          total
          (created name type ∷ calls)
  created-Logged name type n now subs stats total calls l =
      let s = record (Map.get_or name (no_stats d) stats) {
        type = type;
        publisher_count = n;
        window_start = now;
      } in
      record {
        subscribed = λ topic h. ground (arith, l.subscribed topic h);
        counts = λ topic. ground (
          arith,
          count_of-insert d name topic s stats,
          l.counts topic,
          same_count d name topic stats,
        );
        totals = l.totals;
        valid = l.valid;
      }

  pub subscribed-Logged :
      (name type : String) (v : String × Q) (subs : Map (String × Q)) (stats : Map (TopicStats D))
      (total : ℕ) (calls : List Call)
      → Logged subs stats total (created name type ∷ calls)
      → Logged (Map.insert name v subs) stats total (created name type ∷ calls)
  subscribed-Logged name type v subs stats total calls l = record {
    subscribed = λ topic h.
        ground (arith, contains-insert name topic v subs, l.subscribed topic, eq_iff name topic);
    counts = l.counts;
    totals = l.totals;
    valid = l.valid;
  }
