-- ===== src/App/Screen/Config.antt =====
-- The listener of `setup_vt_client` for numbers that the driver changes on the terminal: a setting is
-- stored, and where that fails the terminal gets the stored value back.
use aog_task_controller.Prelude.{
  ℕ, ◌≡◌, refl, ap, ◌∙◌, sym, inl, inr, ◌⊎◌, Bool, true, false, not, List, [], ◌∷◌, Option, none,
  some, arith, ◌==◌, if◌then◌else◌, Bool-cases, to_nat, ==_refl,
}
use aog_task_controller.Settings.{
  JsonLibrary, Settings, World, Saving, Flag, tecu, nmea_send, aog_heartbeat, vt, get_flag,
  set_boolean, put_flag,
}
use aog_task_controller.Settings.Atomic.{IsSetFlag, set_boolean-IsSetFlag}
use aog_task_controller.App.Screen.{ScreenIds}

-- What the listener does besides: the reply to the terminal, and the switch of the cyclic message.
pub data Reaction : Type 0 where
  replies : (object value : ℕ) → Reaction
  sends_cog_sog : Bool → Reaction

get_flag-put_flag : (flag : Flag) (b : Bool) (s : Settings) → get_flag flag (put_flag flag b s) ≡ b
unfolding get_flag put_flag
get_flag-put_flag tecu b s = refl
get_flag-put_flag nmea_send b s = refl
get_flag-put_flag aog_heartbeat b s = refl
get_flag-put_flag vt b s = refl

-- The setting behind an object.
unfoldable pub setting_of : ScreenIds → ℕ → Flag
setting_of ids object = if object == ids.config_nmea_send then nmea_send else tecu

module _ (json : JsonLibrary) where
  -- What comes after `saved` is known, for the setting of the object. An exception ends the listener.
  unfoldable pub after_save :
      Flag → ℕ → List Reaction → World json × Option Bool → World json × Option (List Reaction)
  after_save flag object done (w, none) = (w, none)
  after_save flag object done (w, some true) = (w, some done)
  after_save flag object done (w, some false) =
      (w, some (replies object (to_nat (get_flag flag w.settings)) ∷ []))

  -- The `switch` and the code behind it, for an event of an object and its new value.
  unfoldable pub change_numeric_value :
      ScreenIds → Bool → Saving → World json → ℕ → ℕ → World json × Option (List Reaction)
  unfolding after_save
  change_numeric_value ids has_nmea2000 saving w object value =
      let enabled = not (value == 0) in
      let nmea = set_boolean json nmea_send enabled true saving w in
      if object == ids.config_nmea_send
      then if has_nmea2000
        then after_save nmea_send object (sends_cog_sog enabled ∷ []) nmea
        else after_save nmea_send object [] (w, some false)
      else if object == ids.config_tecu_enabled
      then after_save tecu object [] (set_boolean json tecu enabled true saving w)
      else (w, some [])

  -- The value that the terminal shows for the object, after the driver has entered one.
  unfoldable pub shown_value : ℕ → List Reaction → ℕ → ℕ
  shown_value object [] value = value
  shown_value object (replies o v ∷ rest) value =
      shown_value object rest (if o == object then v else value)
  shown_value object (sends_cog_sog enabled ∷ rest) value = shown_value object rest value

  abbrev pub Shows : ℕ → Flag → ℕ → World json × Option (List Reaction) → Type 0
  Shows object flag value (w, none) = Unit {0}
  Shows object flag value (w, some done) =
      not (shown_value object done value == 0) ≡ get_flag flag w.settings

  flag_test : (b : Bool) → not (to_nat b == 0) ≡ b
  flag_test b = ground arith

  reply_shown :
      (object : ℕ) (flag : Flag) (value : ℕ) (w : World json)
      → not
          (shown_value object (replies object (to_nat (get_flag flag w.settings)) ∷ []) value == 0)
        ≡ get_flag flag w.settings
  unfolding shown_value
  reply_shown object flag value w = rw (==_refl object) (flag_test (get_flag flag w.settings))

  after_save-Shows :
      (flag : Flag) (enabled : Bool) (w : World json) (r : World json × Option Bool)
      (object value : ℕ) (done : List Reaction)
      → IsSetFlag json flag enabled true w r
      → not (shown_value object done value == 0) ≡ enabled
      → Shows object flag value (after_save flag object done r)
  unfolding after_save
  after_save-Shows flag enabled w (w', none) object value done h same = tt
  after_save-Shows flag enabled w (w', some true) object value done (text, dumped, e) same =
      same
      ∙ sym (
          ap (λ (v : World json). get_flag flag v.settings) e
          ∙ get_flag-put_flag flag enabled w.settings)
  after_save-Shows flag enabled w (w', some false) object value done h same =
      reply_shown object flag value w'

  nmea_case :
      (ids : ScreenIds) (has_nmea2000 : Bool) (saving : Saving) (w : World json) (object value : ℕ)
      → let enabled = not (value == 0) in
        Shows object nmea_send value (
          if has_nmea2000
          then after_save nmea_send object
              (sends_cog_sog enabled ∷ [])
              (set_boolean json nmea_send enabled true saving w)
          else after_save nmea_send object [] (w, some false))
  nmea_case ids true saving w object value =
      after_save-Shows nmea_send (not (value == 0)) w
        (set_boolean json nmea_send (not (value == 0)) true saving w) object value
        (sends_cog_sog (not (value == 0)) ∷ [])
        (set_boolean-IsSetFlag json nmea_send (not (value == 0)) true saving w)
        (unfold shown_value in refl)
  nmea_case ids false saving w object value =
      unfold after_save in reply_shown object nmea_send value w

  -- Whatever the file system does, if no exception ends the listener: after the driver has entered a
  -- value for one of the two settings, the terminal shows it as on exactly if the program has it as
  -- on.
  pub change_numeric_value-Shows :
      (ids : ScreenIds) (has_nmea2000 : Bool) (saving : Saving) (w : World json) (object value : ℕ)
      → (object ≡ ids.config_nmea_send) ⊎ (object ≡ ids.config_tecu_enabled)
      → Shows object
          (setting_of ids object)
          value
          (change_numeric_value ids has_nmea2000 saving w object value)
  unfolding change_numeric_value setting_of
  change_numeric_value-Shows ids has_nmea2000 saving w object value known =
      elim (Bool-cases (object == ids.config_nmea_send)) [
        | inl nmea ↦ rw nmea (nmea_case ids has_nmea2000 saving w object value)
        | inr other ↦
            let is_tecu : (object == ids.config_tecu_enabled) ≡ true = ground arith in
            rw (other, is_tecu)
              (after_save-Shows tecu (not (value == 0)) w
                (set_boolean json tecu (not (value == 0)) true saving w) object value []
                (set_boolean-IsSetFlag json tecu (not (value == 0)) true saving w)
                (unfold shown_value in refl))
      ]
