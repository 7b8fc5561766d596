-- ===== src/Settings/Version.antt =====
-- The version of the task controller that the settings hold.
use aog_task_controller.Prelude.{
  ℕ, ◌≤◌, ◌≡◌, refl, sym, subst, Bool, true, false, List, [], ◌∷◌, Option, none, some, arith,
}
use aog_task_controller.Udp.Detection.{Subnet}
use aog_task_controller.Settings.{
  JsonLibrary, Settings, World, Saving, Flag, tecu, nmea_send, aog_heartbeat, vt, put_flag,
  get_flag, save, save_if, roll_back, set_boolean, set_subnet, set_tc_version, set_language_code,
  set_country_code, load, load_text, read_settings, load_version, checked_version, load_file,
  key_tc_version, or_default_version,
}
use aog_task_controller.Settings.Atomic.{save-IsSaved, IsSaved-settings}

-- A call of a method that changes the object.
pub data Change : Type 0 where
  loads : (directory opens : Bool) → Change
  sets_boolean : Flag → (enabled saves : Bool) → Saving → Change
  sets_subnet : Subnet → (saves : Bool) → Saving → Change
  sets_tc_version : ℕ → (saves : Bool) → Saving → Change
  sets_language_code sets_country_code : List ℕ → (saves : Bool) → Saving → Change

abbrev IsVersion : Settings → Type 0
IsVersion s = s.tc_version ≤ 4

checked_version-le : (version : ℕ) → checked_version version ≤ 4
unfolding checked_version
checked_version-le version = ground arith

or_default_version-le : (version : Option ℕ) → or_default_version version ≤ 4
or_default_version-le none = omega arith
or_default_version-le (some version) = checked_version-le version

put_flag-IsVersion :
    (flag : Flag) (b : Bool) (s : Settings) → IsVersion s → IsVersion (put_flag flag b s)
unfolding put_flag
put_flag-IsVersion tecu b s h = h
put_flag-IsVersion nmea_send b s h = h
put_flag-IsVersion aog_heartbeat b s h = h
put_flag-IsVersion vt b s h = h

module _ (json : JsonLibrary) where
  open json use {Node, Json, Text, as_int, at, parse}

  unfoldable pub change : World json → Change → World json
  change w (loads directory opens) = (load json directory opens w).0
  change w (sets_boolean flag enabled saves saving) =
      (set_boolean json flag enabled saves saving w).0
  change w (sets_subnet subnet saves saving) = (set_subnet json subnet saves saving w).0
  change w (sets_tc_version version saves saving) = (set_tc_version json version saves saving w).0
  change w (sets_language_code code saves saving) = (set_language_code json code saves saving w).0
  change w (sets_country_code code saves saving) = (set_country_code json code saves saving w).0

  unfoldable pub changes : World json → List Change → World json
  changes w [] = w
  changes w (c ∷ rest) = changes (change w c) rest

  load_version-le : (node : Option Node) → load_version json node ≤ 4
  unfolding load_version
  load_version-le none = omega arith
  load_version-le (some node) = or_default_version-le (as_int node)

  load_text-IsVersion :
      (w : World json) (d : Option Json)
      → IsVersion w.settings
      → IsVersion (load_text json w d).0.settings
  unfolding load_text read_settings
  load_text-IsVersion w none h = h
  load_text-IsVersion w (some d) h = load_version-le (at d key_tc_version)

  load_file-IsVersion :
      (w : World json) (text : Option Text)
      → IsVersion w.settings
      → IsVersion (load_file json w text).0.settings
  unfolding load_file
  load_file-IsVersion w none h = h
  load_file-IsVersion w (some text) h = load_text-IsVersion w (parse text) h

  load-IsVersion :
      (directory opens : Bool) (w : World json)
      → IsVersion w.settings
      → IsVersion (load json directory opens w).0.settings
  unfolding load
  load-IsVersion false opens w h = h
  load-IsVersion true false w h = h
  load-IsVersion true true w h = load_file-IsVersion w w.file h

  save_if-settings :
      (saves : Bool) (saving : Saving) (w : World json)
      → (save_if json saves saving w).0.settings ≡ w.settings
  save_if-settings false saving w = refl
  save_if-settings true saving w =
      IsSaved-settings json w (save json saving w) (save-IsSaved json saving w)

  save_if-IsVersion :
      (saves : Bool) (saving : Saving) (w : World json)
      → IsVersion w.settings
      → IsVersion (save_if json saves saving w).0.settings
  save_if-IsVersion saves saving w h = subst IsVersion (sym (save_if-settings saves saving w)) h

  roll_back-IsVersion :
      (flag : Flag) (previous : Bool) (r : World json × Option Bool)
      → IsVersion r.0.settings
      → IsVersion (roll_back json flag previous r).0.settings
  unfolding roll_back
  roll_back-IsVersion flag previous (w, none) h = h
  roll_back-IsVersion flag previous (w, some true) h = h
  roll_back-IsVersion flag previous (w, some false) h =
      put_flag-IsVersion flag previous w.settings h

  change-IsVersion :
      (w : World json) (c : Change) → IsVersion w.settings → IsVersion (change w c).settings
  unfolding change set_boolean set_subnet set_tc_version set_language_code set_country_code
  change-IsVersion w (loads directory opens) h = load-IsVersion directory opens w h
  change-IsVersion w (sets_boolean flag enabled saves saving) h =
      roll_back-IsVersion flag (get_flag flag w.settings) (save_if json saves saving _)
        (save_if-IsVersion saves saving _ (put_flag-IsVersion flag enabled w.settings h))
  change-IsVersion w (sets_subnet subnet saves saving) h = save_if-IsVersion saves saving _ h
  change-IsVersion w (sets_tc_version version saves saving) h =
      save_if-IsVersion saves saving _ (ground arith)
  change-IsVersion w (sets_language_code code saves saving) h = save_if-IsVersion saves saving _ h
  change-IsVersion w (sets_country_code code saves saving) h = save_if-IsVersion saves saving _ h

  -- The version is one of the five that there are, from 0 to 4, after any sequence of calls that
  -- starts with such a version, whatever the file says and however saving goes.
  pub changes-IsVersion :
      (w : World json) (cs : List Change)
      → w.settings.tc_version ≤ 4
      → (changes w cs).settings.tc_version ≤ 4
  unfolding changes
  changes-IsVersion w [] h = h
  changes-IsVersion w (c ∷ rest) h = changes-IsVersion (change w c) rest (change-IsVersion w c h)
