-- ===== src/Node/Applying.antt =====
-- What applying a configuration comes to: handleApplyConfig of
-- hector_recorder/src/service_handlers.cpp.
use mathlib.Core.Path.{subst}
use hector_recorder.Common.{
  if_both, String, Bool, true, false, not, ◌≡◌, refl, ◌∙◌, Option, none, some, Result, ok, throw,
  arith,
}
use hector_recorder.Options.{Qos, RecordOptions}
use hector_recorder.Config.{Yaml, Options}
use hector_recorder.Config.Parse.{parse_yaml_config_from_string}
use hector_recorder.Recorder.{Outside, RecorderImpl}
use hector_recorder.Recorder.Discovery.{stop_discovery}
use hector_recorder.Recorder.Control.{update_record_options, update_throttle_configs}
use hector_recorder.Node.{Node, Response, World}
use hector_recorder.Node.Handlers.{
  handle_apply_config, resolve_yaml, node_options, adopt, applied, apply_to, apply_parsed,
  apply_resolved, hot_updated,
}

some_inj : {A : Type 0} (a b : A) → some a ≡ some b → a ≡ b
some_inj a b e = cc

-- What a recorder keeps that goes on into the same bag.
abbrev pub SameBag : {D : Type 0} → RecorderImpl D → RecorderImpl D → Type 0
SameBag r r' =
    (r'.in_recording ≡ r.in_recording)
    × (r'.paused ≡ r.paused)
    × (r'.writer ≡ r.writer)
    × (r'.files ≡ r.files)
    × (r'.subscriptions ≡ r.subscriptions)
    × (r'.topics_info ≡ r.topics_info)

-- A node whose recorder goes on into the same bag.
abbrev pub GoesOn : {D : Type 0} → RecorderImpl D → String → Node D → Type 0
GoesOn r uri n' =
    (r' : RecorderImpl _) × (n'.recorder ≡ some r') × SameBag r r' × (n'.storage_options.uri ≡ uri)

update_record_options-SameBag :
    {D : Type 0} (out : Outside) (options : RecordOptions) (r : RecorderImpl D)
    → SameBag r (update_record_options out options r).1
unfolding update_record_options stop_discovery
update_record_options-SameBag out options r = ground arith

module _ {N D : Type 0} (y : Yaml N D) (profile_default : Qos) where
  hot_updated-GoesOn :
      (r : RecorderImpl D) (u : Bool × RecorderImpl D) (n : Node D)
      → SameBag r u.1
      → GoesOn r n.storage_options.uri (hot_updated y profile_default u n).1
  unfolding update_throttle_configs
  hot_updated-GoesOn r (true, r') n h =
      (update_throttle_configs n.custom_options.topic_throttle r', refl, h, refl)
  hot_updated-GoesOn r (false, r') n h = (r', refl, h, refl)

  apply_to-GoesOn :
      (w : World) (preset_name : String) (o : Options D) (n : Node D)
      (recorder : Option (RecorderImpl D))
      → n.recorder ≡ recorder
      → (r : RecorderImpl D) → recorder ≡ some r
      → GoesOn r n.storage_options.uri
          (apply_to y profile_default recorder w false preset_name o n).1
  unfolding adopt
  apply_to-GoesOn w preset_name o n none h r k = cc
  apply_to-GoesOn w preset_name o n (some r') h r k =
      if_both (λ (x : Option Response × Node D). GoesOn r n.storage_options.uri x.1)
        (not r'.in_recording)
        (applied y profile_default "Config applied." (adopt y profile_default preset_name o n))
        (hot_updated y profile_default (update_record_options w.at_stop o.recording r')
          (adopt y profile_default preset_name o n))
        (r, h ∙ k, (refl, refl, refl, refl, refl, refl), refl)
        (subst
          (λ x.
            GoesOn x n.storage_options.uri
              (hot_updated y profile_default (update_record_options w.at_stop o.recording r')
                (adopt y profile_default preset_name o n)).1)
          (some_inj r' r k)
          (hot_updated-GoesOn r' (update_record_options w.at_stop o.recording r')
            (adopt y profile_default preset_name o n)
            (update_record_options-SameBag w.at_stop o.recording r')))

  apply_parsed-GoesOn :
      (w : World) (p : Bool × Options D) (preset_name : String) (n : Node D) (r : RecorderImpl D)
      → n.recorder ≡ some r
      → GoesOn r n.storage_options.uri (apply_parsed y profile_default p w false preset_name n).1
  apply_parsed-GoesOn w (false, o) preset_name n r h =
      (r, h, (refl, refl, refl, refl, refl, refl), refl)
  apply_parsed-GoesOn w (true, o) preset_name n r h =
      apply_to-GoesOn w preset_name o n n.recorder refl r h

  apply_resolved-GoesOn :
      (w : World) (yaml : Result String) (preset_name : String) (n : Node D) (r : RecorderImpl D)
      → n.recorder ≡ some r
      → GoesOn r n.storage_options.uri
          (apply_resolved y profile_default yaml w false preset_name n).1
  apply_resolved-GoesOn w (throw e) preset_name n r h =
      (r, h, (refl, refl, refl, refl, refl, refl), refl)
  apply_resolved-GoesOn w (ok yaml) preset_name n r h =
      apply_parsed-GoesOn w
        (parse_yaml_config_from_string y w.at_start.rmw_format profile_default yaml
          (node_options y profile_default n))
        preset_name n r h

  -- Applying a configuration without a restart, be it one that parses or not, a preset or a text, and
  -- whether or not the call returns: a recorder that is there is kept, with its state of recording and
  -- of pause, its bag and list of files, its subscriptions and its statistics; and the node keeps the
  -- path of the bag.
  pub apply_without_restart :
      (w : World) (config_yaml preset_name : String) (n : Node D) (r : RecorderImpl D)
      → n.recorder ≡ some r
      → GoesOn r n.storage_options.uri
          (handle_apply_config y profile_default w config_yaml false preset_name n).1
  unfolding handle_apply_config
  apply_without_restart w config_yaml preset_name n r h =
      apply_resolved-GoesOn w (resolve_yaml w n.custom_options.config_path config_yaml preset_name)
        preset_name n r h
