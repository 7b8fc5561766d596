-- ===== src/Settings/RoundTrip.antt =====
-- What `save` writes, `load` reads back.
use aog_task_controller.Prelude.{
  ℕ, ◌<◌, ◌≤◌, ◌≡◌, ◌≢◌, refl, ap, ◌∙◌, Bool, true, List, [], ◌∷◌, Option, some, arith, u8,
}
use aog_task_controller.Udp.Detection.{Subnet}
use aog_task_controller.Settings.{
  JsonLibrary, Settings, World, Saving, save, document, load, load_text, read_settings, load_entry,
  load_subnet, load_version, checked_version, key_subnet, key_tecu_enabled, key_nmea_send_enabled,
  key_aog_heartbeat_enabled, key_vt_enabled, key_tc_version, key_language_code, key_country_code,
  load_file, or_default_subnet, or_default_version,
}
use aog_task_controller.Settings.Atomic.{save-IsSaved, save_true-IsSaved}

-- What is documented of the JSON library: a member that was set is found, the others stay, a value is
-- read back by the type that wrote it, and a text that was written is read as the same document.
pub record IsJson (json : JsonLibrary) : Type 0 where
  pub at_put : (j : json.Json) (k : ℕ) (n : json.Node) → json.at (json.put j k n) k ≡ some n
  pub at_put_other :
      (j : json.Json) (k l : ℕ) (n : json.Node) → l ≢ k → json.at (json.put j k n) l ≡ json.at j l
  pub as_ints_of : (s : Subnet) → json.as_ints (json.of_subnet s) ≡ some (s.ip_0, s.ip_1, s.ip_2)
  pub as_bool_of : (b : Bool) → json.as_bool (json.of_bool b) ≡ some b
  pub as_int_of : (n : ℕ) → n < 256 → json.as_int (json.of_byte n) ≡ some n
  pub as_string_of : (s : List ℕ) → json.as_string (json.of_string s) ≡ some s
  pub parse_dump : (j : json.Json) (t : json.Text) → json.dump j ≡ some t → json.parse t ≡ some j

-- The ranges of the members' types, and the range of the version.
pub record IsInRange (s : Settings) : Type 0 where
  pub first : s.configured_subnet.ip_0 < 256
  pub second : s.configured_subnet.ip_1 < 256
  pub third : s.configured_subnet.ip_2 < 256
  pub version : s.tc_version ≤ 4

checked_version_id : (n : ℕ) → n ≤ 4 → checked_version n ≡ n
unfolding checked_version
checked_version_id n h = ground arith

module _ (json : JsonLibrary) (laws : IsJson json) where
  open json use {
    Json, Node, Text, at, as_bool, as_string, of_bool, of_subnet, of_byte, of_string, dump,
  }

  -- The members of the document that `save` writes.
  record Members (s : Settings) : Type 0 where
    pub subnet_member : at (document json s) key_subnet ≡ some (of_subnet s.configured_subnet)
    pub tecu_member : at (document json s) key_tecu_enabled ≡ some (of_bool s.tecu_enabled)
    pub nmea_send_member :
        at (document json s) key_nmea_send_enabled ≡ some (of_bool s.nmea_send_enabled)
    pub aog_heartbeat_member :
        at (document json s) key_aog_heartbeat_enabled ≡ some (of_bool s.aog_heartbeat_enabled)
    pub vt_member : at (document json s) key_vt_enabled ≡ some (of_bool s.vt_enabled)
    pub version_member : at (document json s) key_tc_version ≡ some (of_byte s.tc_version)
    pub language_member : at (document json s) key_language_code ≡ some (of_string s.language_code)
    pub country_member : at (document json s) key_country_code ≡ some (of_string s.country_code)

  document-Members : (s : Settings) → Members s
  unfolding document
  document-Members s = record {
    subnet_member = grind (arith, laws.at_put, laws.at_put_other);
    tecu_member = grind (arith, laws.at_put, laws.at_put_other);
    nmea_send_member = grind (arith, laws.at_put, laws.at_put_other);
    aog_heartbeat_member = grind (arith, laws.at_put, laws.at_put_other);
    vt_member = grind (arith, laws.at_put, laws.at_put_other);
    version_member = grind (arith, laws.at_put, laws.at_put_other);
    language_member = grind (arith, laws.at_put, laws.at_put_other);
    country_member = grind (arith, laws.at_put, laws.at_put_other);
  }

  load_entry_known :
      {A : Type 0} (get : Node → Option A) (d v : A) (key : ℕ) (j : Json) (n : Node)
      → at j key ≡ some n
      → get n ≡ some v
      → load_entry json get d key j ≡ v
  unfolding load_entry
  load_entry_known get d v key j n found read = rw (found, read) refl

  load_subnet-document :
      (s : Settings)
      → IsInRange s
      → load_subnet json (some (of_subnet s.configured_subnet)) ≡ s.configured_subnet
  unfolding load_subnet
  load_subnet-document s r =
      let b = s.configured_subnet in
      let e0 : u8 b.ip_0 ≡ b.ip_0 = omega (arith, r.first) in
      let e1 : u8 b.ip_1 ≡ b.ip_1 = omega (arith, r.second) in
      let e2 : u8 b.ip_2 ≡ b.ip_2 = omega (arith, r.third) in
      ap or_default_subnet (laws.as_ints_of b) ∙ λ i. record {
        ip_0 = e0 i;
        ip_1 = e1 i;
        ip_2 = e2 i;
      }

  load_version-document :
      (s : Settings) → IsInRange s → load_version json (some (of_byte s.tc_version)) ≡ s.tc_version
  unfolding load_version
  load_version-document s r =
      ap or_default_version (laws.as_int_of s.tc_version (omega (arith, r.version)))
      ∙ checked_version_id s.tc_version r.version

  read_settings-document : (s : Settings) → IsInRange s → read_settings json (document json s) ≡ s
  unfolding read_settings
  read_settings-document s r =
      let m = document-Members s in
      let j = document json s in
      let subnet = ap (load_subnet json) m.subnet_member ∙ load_subnet-document s r in
      let version = ap (load_version json) m.version_member ∙ load_version-document s r in
      let flag = λ (v : Bool) (key : ℕ) (e : at j key ≡ some (of_bool v)).
        load_entry_known as_bool true v key j (of_bool v) e (laws.as_bool_of v) in
      let code = λ (d v : List ℕ) (key : ℕ) (e : at j key ≡ some (of_string v)).
        load_entry_known as_string d v key j (of_string v) e (laws.as_string_of v) in
      λ i. record {
        configured_subnet = subnet i;
        tecu_enabled = flag s.tecu_enabled key_tecu_enabled m.tecu_member i;
        nmea_send_enabled = flag s.nmea_send_enabled key_nmea_send_enabled m.nmea_send_member i;
        aog_heartbeat_enabled =
            flag s.aog_heartbeat_enabled key_aog_heartbeat_enabled m.aog_heartbeat_member i;
        vt_enabled = flag s.vt_enabled key_vt_enabled m.vt_member i;
        tc_version = version i;
        language_code =
            code (b'e' ∷ b'n' ∷ []) s.language_code key_language_code m.language_member i;
        country_code = code (b'U' ∷ b'S' ∷ []) s.country_code key_country_code m.country_member i;
      }

  load_dumped :
      (w : World json) (s : Settings) (text : Text)
      → dump (document json s) ≡ some text
      → w.file ≡ some text
      → IsInRange s
      → load json true true w ≡ (record w { settings = s }, some true)
  unfolding load load_file load_text
  load_dumped w s text dumped there r =
      ap (load_file json w) there
      ∙ ap (load_text json w) (laws.parse_dump (document json s) text dumped)
      ∙ ap (λ t. (record w { settings = t }, some true)) (read_settings-document s r)

  -- With a JSON library as it is documented: when `save` succeeds, a later start of the program, with
  -- whatever settings, loads exactly the settings that were saved, if these are in their ranges.
  pub load-save :
      (saving : Saving) (w : World json) (other : Settings)
      → IsInRange w.settings
      → (save json saving w).1 ≡ some true
      → (load json true true (record (save json saving w).0 { settings = other })).0.settings
        ≡ w.settings
  load-save saving w other r ok =
      let (text, dumped, written) =
        save_true-IsSaved json w (save json saving w) (save-IsSaved json saving w) ok in
      let w' : World json = record (save json saving w).0 { settings = other } in
      let there = ap (λ (v : World json). v.file) written in
      ap (λ x. x.0.settings) (load_dumped w' w.settings text dumped there r)
