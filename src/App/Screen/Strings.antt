-- ===== src/App/Screen/Strings.antt =====
-- The cache of strings saves messages to the terminal and nothing else.
use aog_task_controller.Prelude.{
  ℕ, ◌≡◌, refl, ap, sym, subst, inl, inr, true, List, [], ◌∷◌, ◌++◌, Option, none, some, arith,
  Bool-cases,
}
use aog_task_controller.Prelude.Map.{Map, find, assign, find-assign}
use aog_task_controller.Prelude.Text.{same_text_eq}
use aog_task_controller.App.Screen.{
  Command, initialize, update, change_string, change_numeric, enable_object, track_numeric,
  is_cached, send_vt_string_if_changed, send_strings, Vt, Terminal, handle_vt_disconnected,
}

-- What a command does to the strings that the terminal shows.
unfoldable pub show : Map (List ℕ) → Command → Map (List ℕ)
show screen (change_string object value) = assign object value screen
show screen initialize = screen
show screen update = screen
show screen (change_numeric object value) = screen
show screen (enable_object object enabled) = screen
show screen (track_numeric object value) = screen

unfoldable pub show_all : Map (List ℕ) → List Command → Map (List ℕ)
unfolding show
show_all screen [] = screen
show_all screen (c ∷ rest) = show_all (show screen c) rest

-- The strings that the application wants to show, and an update without a connection, after which
-- the terminal shows what it likes.
pub data Event : Type 0 where
  wants : List (ℕ × List ℕ) → Event
  disconnects : Terminal → Map (List ℕ) → Event

-- The members of the application, and the terminal.
pub record Link : Type 0 where
  pub vt : Vt
  pub screen : Map (List ℕ)

unfoldable pub handle : Link → Event → Link
handle link (wants strings) =
    let (strings', sent) = send_strings strings link.vt.last_strings in
    record { vt = record link.vt { last_strings = strings' }; screen = show_all link.screen sent }
handle link (disconnects now screen) = record {
  vt = handle_vt_disconnected now link.vt;
  screen = screen;
}

unfoldable pub handle_all : Link → List Event → Link
handle_all link [] = link
handle_all link (e ∷ rest) = handle_all (handle link e) rest

-- The specification has no cache: every string is sent.
unfoldable pub assign_all : List (ℕ × List ℕ) → Map (List ℕ) → Map (List ℕ)
assign_all [] screen = screen
assign_all ((object, value) ∷ rest) screen = assign_all rest (assign object value screen)

unfoldable pub replay : Map (List ℕ) → List Event → Map (List ℕ)
unfolding assign_all
replay screen [] = screen
replay screen (wants strings ∷ rest) = replay (assign_all strings screen) rest
replay screen (disconnects now fresh ∷ rest) = replay fresh rest

is_cached_eq : (o : Option (List ℕ)) (value : List ℕ) → is_cached o value ≡ true → o ≡ some value
is_cached_eq none value h = absurd (ground arith)
is_cached_eq (some cached) value h = ap some (same_text_eq cached value h)

-- What is in the cache is on the screen, and the screen is that of the specification.
record Agrees (cache screen plain : Map (List ℕ)) : Type 0 where
  pub cached : (o : ℕ) (t : List ℕ) → find o cache ≡ some t → find o screen ≡ some t
  pub same : (o : ℕ) → find o screen ≡ find o plain

-- One string, by what comes of the test of the cache.
send_cached :
    (object : ℕ) (value : List ℕ) (cache screen plain : Map (List ℕ))
    → find object cache ≡ some value
    → Agrees cache screen plain
    → Agrees cache screen (assign object value plain)
send_cached object value cache screen plain there a = record {
  cached = a.cached;
  same =
      λ o. ground (arith, find-assign object o value plain, a.same o, a.cached object value there);
}

send_new :
    (object : ℕ) (value : List ℕ) (cache screen plain : Map (List ℕ))
    → Agrees cache screen plain
    → Agrees (assign object value cache) (assign object value screen) (assign object value plain)
send_new object value cache screen plain a = record {
  cached = λ o t h.
      ground
        (arith, find-assign object o value cache, find-assign object o value screen, a.cached o t);
  same = λ o.
      ground (arith, find-assign object o value plain, find-assign object o value screen, a.same o);
}

show_all-append :
    (screen : Map (List ℕ)) (xs ys : List Command)
    → show_all screen (xs ++ ys) ≡ show_all (show_all screen xs) ys
unfolding show_all
show_all-append screen [] ys = refl
show_all-append screen (x ∷ xs) ys = show_all-append (show screen x) xs ys

send_string-Agrees :
    (object : ℕ) (value : List ℕ) (cache screen plain : Map (List ℕ))
    → Agrees cache screen plain
    → let (cache', sent) = send_vt_string_if_changed object value cache in
      Agrees cache' (show_all screen sent) (assign object value plain)
unfolding send_vt_string_if_changed show_all show
send_string-Agrees object value cache screen plain a =
    elim (Bool-cases (is_cached (find object cache) value)) [
      | inl old ↦ rw old (
          send_cached object value cache screen plain (is_cached_eq (find object cache) value old)
            a)
      | inr new ↦ rw new (send_new object value cache screen plain a)
    ]

send_strings-Agrees :
    (strings : List (ℕ × List ℕ)) (cache screen plain : Map (List ℕ))
    → Agrees cache screen plain
    → let (cache', sent) = send_strings strings cache in
      Agrees cache' (show_all screen sent) (assign_all strings plain)
unfolding send_strings assign_all
send_strings-Agrees [] cache screen plain a = unfold show_all in a
send_strings-Agrees ((object, value) ∷ rest) cache screen plain a =
    let (cache', now) = send_vt_string_if_changed object value cache in
    let (cache'', later) = send_strings rest cache' in
    subst (λ s. Agrees cache'' s (assign_all rest (assign object value plain)))
      (sym (show_all-append screen now later))
      (send_strings-Agrees rest cache' (show_all screen now) (assign object value plain)
        (send_string-Agrees object value cache screen plain a))

handle_all-Agrees :
    (link : Link) (plain : Map (List ℕ)) (events : List Event)
    → Agrees link.vt.last_strings link.screen plain
    → let link' = handle_all link events in
      Agrees link'.vt.last_strings link'.screen (replay plain events)
unfolding handle_all replay handle
handle_all-Agrees link plain [] a = a
handle_all-Agrees link plain (wants strings ∷ rest) a =
    handle_all-Agrees (handle link (wants strings)) (assign_all strings plain) rest
      (send_strings-Agrees strings link.vt.last_strings link.screen plain a)
handle_all-Agrees link plain (disconnects now fresh ∷ rest) a =
    handle_all-Agrees (handle link (disconnects now fresh)) fresh rest (
      unfold handle_vt_disconnected in
      record { cached = λ o t h. absurd (unfold find in ground arith); same = λ o. refl })

-- From an empty `lastVtStrings`, and whatever the terminal shows, after any sequence of updates of the
-- strings and of updates without a connection, which `handle_vt_disconnected` handles, the terminal
-- shows for every object what it would show if each string were sent every time.
pub handle_all-replay :
    (vt : Vt) (screen : Map (List ℕ)) (events : List Event) (object : ℕ)
    → vt.last_strings ≡ []
    → find object (handle_all (record { vt = vt; screen = screen }) events).screen
      ≡ find object (replay screen events)
handle_all-replay vt screen events object empty =
    let start : Link = record { vt = vt; screen = screen } in
    let a : Agrees [] screen screen = record {
      cached = λ o t h. absurd (unfold find in ground arith);
      same = λ o. refl;
    } in
    let b = subst (λ cache. Agrees cache screen screen) (sym empty) a in
    (handle_all-Agrees start screen events b).same object
