-- ===== src/Server/Activation/Outcome.antt =====
-- What a client is answered when it activates its pool, and what becomes of the server.
use mathlib.Core.List.{head?}
use aog_task_controller.Prelude.{
  any, ◌∷◌, [], leb, ltb, ◌&&◌, ◌||◌, ◌==◌, inl, inr, Bool-cases, arith, ℕ, ◌≡◌, refl, ap, ◌∙◌,
  Bool, true, false, List, [], Option, none, some, if◌then◌else◌,
}
use aog_task_controller.Prelude.Map.{Map, find, assign}
use aog_task_controller.Isobus.{
  DataDictionary, PoolLibrary, Object, device, device_element, process_data, other_object, objects,
}
use aog_task_controller.Client.{ClientState}
use aog_task_controller.Server.{Server}
use aog_task_controller.Server.Activation.{
  Activation, accepted, rejected, threw, there_are_errors_in_the_ddop, unknown_object_reference,
  any_other_pool_error, invalid_chars, find_device, sanitize_filename, printable_prefix,
  any_other_error, no_errors, deserialize_chunks, configure_client, saving_throws,
  activate_uploaded, activate_object_pool,
}
use aog_task_controller.Server.Activation.Verdict.{
  verdict, registered, label_throws, received, answer_to, with_registered, uploaded_answer,
}

verdict_if :
    (throws : Bool) (label : List ℕ)
    → verdict true (some label) throws ≡ (if throws then threw else accepted)
unfolding verdict
verdict_if true label = refl
verdict_if false label = refl

-- The labels of the devices of a pool.
unfoldable pub labels : List Object → List (List ℕ)
labels [] = []
labels (device label ∷ rest) = label ∷ labels rest
labels (_ ∷ rest) = labels rest

find_device_label : (os : List Object) → find_device os ≡ head? (labels os)
unfolding find_device labels
find_device_label [] = refl
find_device_label (device label ∷ rest) = refl
find_device_label (device_element e ∷ rest) = find_device_label rest
find_device_label (process_data d ∷ rest) = find_device_label rest
find_device_label (other_object ∷ rest) = find_device_label rest

-- A character that a file name cannot have: \ / * : ? " < > |
abbrev is_refused : ℕ → Bool
is_refused c =
    c == 92 || c == 47 || c == 42 || c == 58 || c == 63 || c == 34 || c == 60 || c == 62 || c == 124

refused_lem : (c : ℕ) → any (λ bad. bad == c) invalid_chars ≡ is_refused c
refused_lem c = ground arith

-- The name of the file: the label up to the first byte that is not printable, from 32 to 126, with '_'
-- for what is refused.
unfoldable pub file_name : List ℕ → List ℕ
file_name [] = []
file_name (c ∷ rest) =
    let others = file_name rest in
    if leb 32 c && leb c 126 then (if is_refused c then 95 else c) ∷ others else []

sanitize-printable : (label : List ℕ) → sanitize_filename (printable_prefix label) ≡ file_name label
unfolding sanitize_filename printable_prefix file_name
sanitize-printable [] = refl
sanitize-printable (c ∷ rest) = elim (Bool-cases (leb 32 c && leb c 126)) [
  | inl printable ↦
      let same : (ltb c 32 || leb 127 c) ≡ false = ground (arith, printable) in
      rw (printable, same, refused_lem c)
        (ap (λ t. (if is_refused c then 95 else c) ∷ t) (sanitize-printable rest))
  | inr stops ↦
      let same : (ltb c 32 || leb 127 c) ≡ true = ground (arith, stops) in rw (stops, same) refl
]

module _ (lib : PoolLibrary) (dd : DataDictionary) (path_fails : ℕ → List ℕ → Bool) where
  open lib use {Pool, default_pool, set_second_edition_draft, generate_binary, deserialize}

  -- The specification: the pool after some chunks, each on the pool of those before it.
  unfoldable pub pool_after : ℕ → List (List ℕ) → Pool → Pool
  pool_after name [] pool = pool
  pool_after name (chunk ∷ rest) pool = pool_after name rest (deserialize chunk name pool).1

  -- There is a chunk, and the last one is read.
  unfoldable pub last_is_read : ℕ → List (List ℕ) → Pool → Bool
  last_is_read name [] pool = false
  last_is_read name (chunk ∷ []) pool = (deserialize chunk name pool).0
  last_is_read name (chunk ∷ next ∷ rest) pool =
      last_is_read name (next ∷ rest) (deserialize chunk name pool).1

  -- An exception comes of a pool with a binary for a file whose path is refused.
  abbrev file_fails : Option (List ℕ) → ℕ → List ℕ → Bool
  file_fails none name label = false
  file_fails (some binary) name label = path_fails name (file_name label)

  -- The answer, by the label of the first device.
  abbrev pub answer_labelled : ℕ → Pool → Option (List ℕ) → Activation
  answer_labelled name pool none = rejected there_are_errors_in_the_ddop unknown_object_reference
  answer_labelled name pool (some label) =
      if file_fails (generate_binary pool) name label then threw else accepted

  abbrev pub expected : ℕ → Option (List (List ℕ)) → Activation
  expected name none = rejected any_other_error no_errors
  expected name (some chunks) =
      let start = set_second_edition_draft default_pool in
      let pool = pool_after name chunks start in
      if last_is_read name chunks start
      then answer_labelled name pool (head? (labels (objects lib pool)))
      else rejected there_are_errors_in_the_ddop any_other_pool_error

  deserialize_rest :
      (name : ℕ) (chunk : List ℕ) (rest : List (List ℕ)) (before : Bool) (pool : Pool)
      → deserialize_chunks lib dd name (chunk ∷ rest) (before, pool)
        ≡ (last_is_read name (chunk ∷ rest) pool, pool_after name (chunk ∷ rest) pool)
  unfolding deserialize_chunks last_is_read pool_after
  deserialize_rest name chunk [] before pool = refl
  deserialize_rest name chunk (next ∷ rest) before pool =
      let (read, pool') = deserialize chunk name pool in deserialize_rest name next rest read pool'

  received_lem :
      (name : ℕ) (chunks : List (List ℕ))
      → let start = set_second_edition_draft default_pool in
        received lib dd path_fails name chunks
        ≡ (last_is_read name chunks start, pool_after name chunks start)
  received_lem name [] = unfold deserialize_chunks last_is_read pool_after in refl
  received_lem name (chunk ∷ rest) =
      deserialize_rest name chunk rest false (set_second_edition_draft default_pool)

  verdict_saved :
      (name : ℕ) (label : List ℕ) (binary : Option (List ℕ))
      → verdict true (some label) (saving_throws lib dd path_fails name label binary)
        ≡ (if file_fails binary name label then threw else accepted)
  unfolding verdict saving_throws
  verdict_saved name label none = refl
  verdict_saved name label (some binary) =
      rw (sanitize-printable label) (verdict_if (path_fails name (file_name label)) label)

  verdict_labelled :
      (last : Bool) (name : ℕ) (pool : Pool) (label : Option (List ℕ))
      → verdict last label (label_throws lib dd path_fails name pool label) ≡ (
          if last
          then answer_labelled name pool label
          else rejected there_are_errors_in_the_ddop any_other_pool_error)
  unfolding verdict
  verdict_labelled false name pool label = refl
  verdict_labelled true name pool none = refl
  verdict_labelled true name pool (some label) = verdict_saved name label (generate_binary pool)

  answer_to-expected :
      (name : ℕ) (chunks : List (List ℕ))
      → answer_to lib dd path_fails name chunks ≡ expected name (some chunks)
  answer_to-expected name chunks =
      let start = set_second_edition_draft default_pool in
      let pool = pool_after name chunks start in
      let last = last_is_read name chunks start in
      let e : answer_to lib dd path_fails name chunks
          ≡ verdict last (find_device (objects lib pool))
              (label_throws lib dd path_fails name pool (find_device (objects lib pool))) =
        ap
          (λ r.
            verdict r.0 (find_device (objects lib r.1))
              (label_throws lib dd path_fails name r.1 (find_device (objects lib r.1))))
          (received_lem name chunks) in
      e
      ∙ verdict_labelled last name pool (find_device (objects lib pool))
      ∙ ap
          (λ label.
            if last
            then answer_labelled name pool label
            else rejected there_are_errors_in_the_ddop any_other_pool_error)
          (find_device_label (objects lib pool))

  -- What becomes of the clients and of the chunks of the partner.
  abbrev pub clients_after :
      ℕ → Activation → ℕ → Option (List (List ℕ)) → Map (ClientState Pool) → Map (ClientState Pool)
  clients_after name accepted partner (some chunks) clients =
      assign partner
        (configure_client lib dd (pool_after name chunks (set_second_edition_draft default_pool)))
        clients
  clients_after name _ partner _ clients = clients

  abbrev pub drained : Option (List (List ℕ)) → Option (List (List ℕ))
  drained none = none
  drained (some chunks) = some []

  clients_registered :
      (v : Activation) (name partner : ℕ) (chunks : List (List ℕ))
      (clients : Map (ClientState Pool))
      → with_registered lib dd path_fails partner
          (registered lib dd path_fails v (received lib dd path_fails name chunks).1)
          clients
        ≡ clients_after name v partner (some chunks) clients
  clients_registered accepted name partner chunks clients =
      ap (λ r. assign partner (configure_client lib dd r.1) clients) (received_lem name chunks)
  clients_registered (rejected error why) name partner chunks clients = refl
  clients_registered threw name partner chunks clients = refl

  -- On every branch. Without an upload the answer is `any_other_error`. Otherwise the chunks are read in
  -- order, each onto the pool of those before it: there are errors in the pool if the last of them is
  -- not read, and an unknown reference if the pool then has no device. If it has, an exception comes of
  -- a pool with a binary whose file has a path that is refused, by the printable start of the label of
  -- the first device with the characters replaced that a file name cannot have; and else the client is
  -- accepted. It is registered, with the state that its pool gives, exactly if it is accepted, and
  -- otherwise the clients are as before; and chunks that were uploaded are gone.
  pub activate_object_pool_answer :
      (name : ℕ) (server : Server Pool) (partner : ℕ) (upload : Option (List (List ℕ)))
      → find partner server.uploaded_pools ≡ upload
      → let (server', answer) = activate_object_pool lib dd path_fails name server partner in
        (answer ≡ expected name upload)
        × (server'.clients
            ≡ clients_after name (expected name upload) partner upload server.clients)
        × (find partner server'.uploaded_pools ≡ drained upload)
  activate_object_pool_answer name server partner none there =
      unfold activate_object_pool activate_uploaded in rw there (refl, refl, there)
  activate_object_pool_answer name server partner (some chunks) there =
      let (answer, clients, gone) =
        uploaded_answer lib dd path_fails name server partner chunks there in
      let same = answer_to-expected name chunks in
      (
        answer ∙ same,
        clients
            ∙ clients_registered (answer_to lib dd path_fails name chunks) name partner chunks
                server.clients
            ∙ ap (λ v. clients_after name v partner (some chunks) server.clients) same,
        gone,
      )
