-- ===== src/Settings.antt =====
-- include/settings.hpp and src/settings.cpp: the settings of the program, and the file that keeps them.
-- The JSON library and the file system are not part of the repository: the first is a parameter, and
-- what the second does in a call of `save` or `load` is an argument of the call.
pub mod Version
pub mod Atomic
pub mod RoundTrip
use aog_task_controller.Prelude.{
  ℕ, zero, suc, ◌+◌, ◌*◌, ◌≡◌, ◌≢◌, Bool, true, false, ◌&&◌, List, [], ◌∷◌, ◌++◌, Option, none,
  some, ltb, leb, if◌then◌else◌, u8,
}
use aog_task_controller.Udp.Detection.{Subnet}

-- The eight names in the file, by number.
abbrev pub key_subnet : ℕ
key_subnet = 0

abbrev pub key_tecu_enabled : ℕ
key_tecu_enabled = 1

abbrev pub key_nmea_send_enabled : ℕ
key_nmea_send_enabled = 2

abbrev pub key_aog_heartbeat_enabled : ℕ
key_aog_heartbeat_enabled = 3

abbrev pub key_vt_enabled : ℕ
key_vt_enabled = 4

abbrev pub key_tc_version : ℕ
key_tc_version = 5

abbrev pub key_language_code : ℕ
key_language_code = 6

abbrev pub key_country_code : ℕ
key_country_code = 7

-- nlohmann/json. `at` is the member of an object, and nothing for every other document. `as_…` is
-- `get` of a type, where `none` is its exception; an `int` is its 32 bits. `put` is `data[key] = value`.
-- `dump` throws on a string that is not UTF-8, `parse` on a text that is not JSON.
pub record JsonLibrary : Type 1 where
  pub Json : Type 0
  pub Node : Type 0
  pub Text : Type 0
  pub null : Json
  pub at : Json → ℕ → Option Node
  pub put : Json → ℕ → Node → Json
  pub of_subnet : Subnet → Node
  pub of_bool : Bool → Node
  pub of_byte : ℕ → Node
  pub of_string : List ℕ → Node
  pub as_ints : Node → Option (ℕ × ℕ × ℕ)
  pub as_bool : Node → Option Bool
  pub as_int : Node → Option ℕ
  pub as_string : Node → Option (List ℕ)
  pub dump : Json → Option Text
  pub parse : Text → Option Json

pub record Settings : Type 0 where
  pub configured_subnet : Subnet
  pub tecu_enabled : Bool
  pub nmea_send_enabled : Bool
  pub aog_heartbeat_enabled : Bool
  pub vt_enabled : Bool
  pub tc_version : ℕ
  pub language_code : List ℕ
  pub country_code : List ℕ

abbrev pub default_subnet : Subnet
default_subnet = record { ip_0 = 192; ip_1 = 168; ip_2 = 5 }

abbrev pub default_tc_version : ℕ
default_tc_version = 3

abbrev pub default_settings : Settings
default_settings = record {
  configured_subnet = default_subnet;
  tecu_enabled = true;
  nmea_send_enabled = true;
  aog_heartbeat_enabled = true;
  vt_enabled = true;
  tc_version = default_tc_version;
  language_code = b'e' ∷ b'n' ∷ [];
  country_code = b'U' ∷ b'S' ∷ [];
}

-- A conversion that fails leaves the default.
abbrev pub or_else : {A : Type 0} → A → Option A → A
or_else d none = d
or_else d (some v) = v

-- The `int`s are copied to bytes.
abbrev pub to_subnet : ℕ × ℕ × ℕ → Subnet
to_subnet (a, b, c) = record { ip_0 = u8 a; ip_1 = u8 b; ip_2 = u8 c }

-- `version >= 0 && version <= 4` on the 32 bits of an `int`.
unfoldable pub checked_version : ℕ → ℕ
checked_version version =
    if ltb version 0x80000000 && leb version 4 then u8 version else default_tc_version

abbrev pub or_default_subnet : Option (ℕ × ℕ × ℕ) → Subnet
or_default_subnet none = default_subnet
or_default_subnet (some ints) = to_subnet ints

abbrev pub or_default_version : Option ℕ → ℕ
or_default_version none = default_tc_version
or_default_version (some version) = checked_version version

-- What the file system does in a call of `save`: the exception of `get_filename_path`, the errors at
-- each step, or none.
pub data Saving : Type 0 where
  no_directory cannot_open cannot_write cannot_rename succeeds : Saving

-- The reference that `set_boolean` takes, as a field and the way to set it.
pub data Flag : Type 0 where
  tecu nmea_send aog_heartbeat vt : Flag

unfoldable pub get_flag : Flag → Settings → Bool
get_flag tecu s = s.tecu_enabled
get_flag nmea_send s = s.nmea_send_enabled
get_flag aog_heartbeat s = s.aog_heartbeat_enabled
get_flag vt s = s.vt_enabled

unfoldable pub put_flag : Flag → Bool → Settings → Settings
put_flag tecu enabled s = record s { tecu_enabled = enabled }
put_flag nmea_send enabled s = record s { nmea_send_enabled = enabled }
put_flag aog_heartbeat enabled s = record s { aog_heartbeat_enabled = enabled }
put_flag vt enabled s = record s { vt_enabled = enabled }

module _ (json : JsonLibrary) where
  open json use {
    Json, Node, Text, null, at, put, of_subnet, of_bool, of_byte, of_string, as_ints, as_bool,
    as_int, as_string, dump, parse,
  }

  -- The object, and the content of settings.json.
  pub record World : Type 0 where
    pub settings : Settings
    pub file : Option Text

  abbrev convert : {A : Type 0} → (Node → Option A) → A → Option Node → A
  convert get d none = d
  convert get d (some node) = or_else d (get node)

  -- One entry: the default where the key is missing or its value has another type.
  unfoldable pub load_entry : {A : Type 0} → (Node → Option A) → A → ℕ → Json → A
  load_entry get d key doc = convert get d (at doc key)

  unfoldable pub load_subnet : Option Node → Subnet
  load_subnet none = default_subnet
  load_subnet (some node) = or_default_subnet (as_ints node)

  unfoldable pub load_version : Option Node → ℕ
  load_version none = default_tc_version
  load_version (some node) = or_default_version (as_int node)

  unfoldable pub read_settings : Json → Settings
  read_settings doc = record {
    configured_subnet = load_subnet (at doc key_subnet);
    tecu_enabled = load_entry as_bool true key_tecu_enabled doc;
    nmea_send_enabled = load_entry as_bool true key_nmea_send_enabled doc;
    aog_heartbeat_enabled = load_entry as_bool true key_aog_heartbeat_enabled doc;
    vt_enabled = load_entry as_bool true key_vt_enabled doc;
    tc_version = load_version (at doc key_tc_version);
    language_code = load_entry as_string (b'e' ∷ b'n' ∷ []) key_language_code doc;
    country_code = load_entry as_string (b'U' ∷ b'S' ∷ []) key_country_code doc;
  }

  unfoldable pub load_text : World → Option Json → World × Option Bool
  load_text w none = (w, none)
  load_text w (some doc) = (record w { settings = read_settings doc }, some true)

  unfoldable pub load_file : World → Option Text → World × Option Bool
  unfolding load_text
  load_file w none = (w, some false)
  load_file w (some text) = load_text w (parse text)

  -- `opens` says whether the file can be opened. The result is `none` for an exception: the text is not
  -- JSON, or there is no directory.
  unfoldable pub load : (directory opens : Bool) → World → World × Option Bool
  unfolding load_file
  load false opens w = (w, none)
  load true false w = (w, some false)
  load true true w = load_file w w.file

  unfoldable pub document : Settings → Json
  document s =
      let j1 = put null key_subnet (of_subnet s.configured_subnet) in
      let j2 = put j1 key_tecu_enabled (of_bool s.tecu_enabled) in
      let j3 = put j2 key_nmea_send_enabled (of_bool s.nmea_send_enabled) in
      let j4 = put j3 key_aog_heartbeat_enabled (of_bool s.aog_heartbeat_enabled) in
      let j5 = put j4 key_vt_enabled (of_bool s.vt_enabled) in
      let j6 = put j5 key_tc_version (of_byte s.tc_version) in
      let j7 = put j6 key_language_code (of_string s.language_code) in
      put j7 key_country_code (of_string s.country_code)

  -- The text is written to a temporary file, which then replaces the old one.
  unfoldable pub write_text : Saving → World → Option Text → World × Option Bool
  write_text cannot_write w (some text) = (w, some false)
  write_text cannot_rename w (some text) = (w, some false)
  write_text succeeds w (some text) = (record w { file = some text }, some true)
  write_text _ w _ = (w, none)

  unfoldable pub save : Saving → World → World × Option Bool
  unfolding write_text
  save no_directory w = (w, none)
  save cannot_open w = (w, some false)
  save saving w = write_text saving w (dump (document w.settings))

  abbrev save_if : Bool → Saving → World → World × Option Bool
  save_if false saving w = (w, some true)
  save_if true saving w = save saving w

  -- After a failed save the old value comes back; an exception leaves the new one.
  unfoldable pub roll_back : Flag → Bool → World × Option Bool → World × Option Bool
  roll_back flag previous (w, some false) =
      (record w { settings = put_flag flag previous w.settings }, some false)
  roll_back flag previous (w, result) = (w, result)

  unfoldable pub set_boolean : Flag → Bool → Bool → Saving → World → World × Option Bool
  unfolding roll_back
  set_boolean flag enabled saves saving w =
      let w' = record w { settings = put_flag flag enabled w.settings } in
      roll_back flag (get_flag flag w.settings) (save_if saves saving w')

  unfoldable pub set_subnet : Subnet → Bool → Saving → World → World × Option Bool
  set_subnet subnet saves saving w =
      let s = record w.settings { configured_subnet = subnet } in
      save_if saves saving (record w { settings = s })

  unfoldable pub set_tc_version : ℕ → Bool → Saving → World → World × Option Bool
  set_tc_version version saves saving w =
      let s = record w.settings {
        tc_version = if ltb 4 version then default_tc_version else version;
      } in
      save_if saves saving (record w { settings = s })

  unfoldable pub set_language_code : List ℕ → Bool → Saving → World → World × Option Bool
  set_language_code code saves saving w =
      let s = record w.settings { language_code = code } in
      save_if saves saving (record w { settings = s })

  unfoldable pub set_country_code : List ℕ → Bool → Saving → World → World × Option Bool
  set_country_code code saves saving w =
      let s = record w.settings { country_code = code } in
      save_if saves saving (record w { settings = s })
