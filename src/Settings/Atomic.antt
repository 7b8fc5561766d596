-- ===== src/Settings/Atomic.antt =====
-- What a setter leaves behind: the object and the file, for each way that `save` can go.
use aog_task_controller.Prelude.{◌≡◌, refl, ap, ◌∙◌, Bool, true, false, Option, none, some, arith}
use aog_task_controller.Settings.{
  JsonLibrary, Settings, World, Saving, no_directory, cannot_open, cannot_write, cannot_rename,
  succeeds, Flag, tecu, nmea_send, aog_heartbeat, vt, get_flag, put_flag, save, write_text,
  document, roll_back, set_boolean,
}

put_flag-get_flag :
    (flag : Flag) (enabled : Bool) (s : Settings)
    → put_flag flag (get_flag flag s) (put_flag flag enabled s) ≡ s
unfolding put_flag get_flag
put_flag-get_flag tecu enabled s = refl
put_flag-get_flag nmea_send enabled s = refl
put_flag-get_flag aog_heartbeat enabled s = refl
put_flag-get_flag vt enabled s = refl

module _ (json : JsonLibrary) where
  open json use {Text, dump}

  -- `save` replaces the file as a whole, and says so, or leaves everything as it was.
  abbrev IsSaved : World json → World json × Option Bool → Type 0
  IsSaved w (w', some true) =
      (text : Text) × (dump (document json w.settings) ≡ some text)
      × (w' ≡ record w { file = some text })
  IsSaved w (w', result) = w' ≡ w

  write_text-IsSaved :
      (saving : Saving) (w : World json) (t : Option Text)
      → dump (document json w.settings) ≡ t
      → IsSaved w (write_text json saving w t)
  unfolding write_text
  write_text-IsSaved no_directory w none e = refl
  write_text-IsSaved no_directory w (some text) e = refl
  write_text-IsSaved cannot_open w none e = refl
  write_text-IsSaved cannot_open w (some text) e = refl
  write_text-IsSaved cannot_write w none e = refl
  write_text-IsSaved cannot_write w (some text) e = refl
  write_text-IsSaved cannot_rename w none e = refl
  write_text-IsSaved cannot_rename w (some text) e = refl
  write_text-IsSaved succeeds w none e = refl
  write_text-IsSaved succeeds w (some text) e = (text, e, refl)

  pub save-IsSaved : (saving : Saving) (w : World json) → IsSaved w (save json saving w)
  unfolding save
  save-IsSaved no_directory w = refl
  save-IsSaved cannot_open w = refl
  save-IsSaved cannot_write w =
      write_text-IsSaved cannot_write w (dump (document json w.settings)) refl
  save-IsSaved cannot_rename w =
      write_text-IsSaved cannot_rename w (dump (document json w.settings)) refl
  save-IsSaved succeeds w = write_text-IsSaved succeeds w (dump (document json w.settings)) refl

  pub IsSaved-settings :
      (w : World json) (r : World json × Option Bool) → IsSaved w r → r.0.settings ≡ w.settings
  IsSaved-settings w (w', none) h = ap (λ (v : World json). v.settings) h
  IsSaved-settings w (w', some false) h = ap (λ (v : World json). v.settings) h
  IsSaved-settings w (w', some true) (text, dumped, h) = ap (λ (v : World json). v.settings) h

  pub save_true-IsSaved :
      (w : World json) (r : World json × Option Bool)
      → IsSaved w r
      → r.1 ≡ some true
      → (text : Text) × (dump (document json w.settings) ≡ some text)
        × (r.0 ≡ record w { file = some text })
  save_true-IsSaved w (w', some true) h ok = h
  save_true-IsSaved w (w', none) h ok = absurd (ground arith)
  save_true-IsSaved w (w', some false) h ok = absurd (ground arith)

  -- What the caller of `set_boolean` may rely on, by the result.
  abbrev pub IsSetFlag : Flag → Bool → Bool → World json → World json × Option Bool → Type 0
  IsSetFlag flag enabled false w (w', result) =
      (result ≡ some true) × (w' ≡ record w { settings = put_flag flag enabled w.settings })
  IsSetFlag flag enabled true w (w', some true) =
      (text : Text) × (dump (document json (put_flag flag enabled w.settings)) ≡ some text)
      × (w' ≡ record w { settings = put_flag flag enabled w.settings; file = some text })
  IsSetFlag flag enabled true w (w', some false) = w' ≡ w
  IsSetFlag flag enabled true w (w', none) =
      w' ≡ record w { settings = put_flag flag enabled w.settings }

  roll_back-IsSetFlag :
      (flag : Flag) (enabled : Bool) (w : World json) (r : World json × Option Bool)
      → IsSaved (record w { settings = put_flag flag enabled w.settings }) r
      → IsSetFlag flag enabled true w (roll_back json flag (get_flag flag w.settings) r)
  unfolding roll_back
  roll_back-IsSetFlag flag enabled w (w', none) h = h
  roll_back-IsSetFlag flag enabled w (w', some true) h = h
  roll_back-IsSetFlag flag enabled w (w', some false) h =
      let same = ap (λ (v : World json). put_flag flag (get_flag flag w.settings) v.settings) h in
      let back = same ∙ put_flag-get_flag flag enabled w.settings in
      let kept = ap (λ (v : World json). v.file) h in
      λ i. record { settings = back i; file = kept i }

  -- `set_boolean`, on every branch. Without saving the flag is set. With saving, the result true means
  -- that the flag is set and the file holds the new settings as a whole; the result false that nothing
  -- has changed; and an exception that the flag is set and the file is the old one.
  pub set_boolean-IsSetFlag :
      (flag : Flag) (enabled saves : Bool) (saving : Saving) (w : World json)
      → IsSetFlag flag enabled saves w (set_boolean json flag enabled saves saving w)
  unfolding set_boolean
  set_boolean-IsSetFlag flag enabled false saving w = unfold roll_back in (refl, refl)
  set_boolean-IsSetFlag flag enabled true saving w =
      let w' = record w { settings = put_flag flag enabled w.settings } in
      roll_back-IsSetFlag flag enabled w (save json saving w') (save-IsSaved saving w')
