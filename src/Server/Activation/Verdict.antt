-- ===== src/Server/Activation/Verdict.antt =====
-- The answer to a client that has uploaded chunks, by what the functions of the activation find.
use aog_task_controller.Prelude.{
  [], ℕ, ◌≡◌, refl, ap, ◌∙◌, sym, subst, Bool, true, false, List, [], Option, none, some,
  if◌then◌else◌,
}
use aog_task_controller.Prelude.Map.{Map, find, assign, find-assign_self}
use aog_task_controller.Isobus.{DataDictionary, PoolLibrary, objects}
use aog_task_controller.Client.{ClientState}
use aog_task_controller.Server.{Server}
use aog_task_controller.Server.Activation.{
  Activation, accepted, rejected, threw, there_are_errors_in_the_ddop, unknown_object_reference,
  any_other_pool_error, find_device, deserialize_chunks, configure_client, saving_throws,
  activate_pool, activate_chunks, finish_activation, activate_uploaded, activate_object_pool,
}

-- The answer, by whether the last chunk was deserialized, whether the pool has a device, and whether
-- saving it throws.
unfoldable pub verdict : Bool → Option (List ℕ) → Bool → Activation
verdict false label throws = rejected there_are_errors_in_the_ddop any_other_pool_error
verdict true none throws = rejected there_are_errors_in_the_ddop unknown_object_reference
verdict true (some label) true = threw
verdict true (some label) false = accepted

module _ (lib : PoolLibrary) (dd : DataDictionary) (path_fails : ℕ → List ℕ → Bool) where
  open lib use {Pool, default_pool, set_second_edition_draft, generate_binary, deserialize}

  -- The state that an answer comes with.
  abbrev pub registered : Activation → Pool → Option (ClientState Pool)
  registered accepted pool = some (configure_client lib dd pool)
  registered _ pool = none

  abbrev pub label_throws : ℕ → Pool → Option (List ℕ) → Bool
  label_throws name pool none = false
  label_throws name pool (some label) =
      saving_throws lib dd path_fails name label (generate_binary pool)

  abbrev IsAnswer : Activation → Pool → Activation × Option (ClientState Pool) → Type 0
  IsAnswer v pool r = r ≡ (v, registered v pool)

  saved-IsAnswer :
      (throws : Bool) (label : List ℕ) (pool : Pool)
      → IsAnswer
          (verdict true (some label) throws)
          pool
          (if throws then (threw, none) else (accepted, some (configure_client lib dd pool)))
  unfolding verdict
  saved-IsAnswer true label pool = refl
  saved-IsAnswer false label pool = refl

  activate_pool-IsAnswer :
      (name : ℕ) (pool : Pool) (label : Option (List ℕ))
      → IsAnswer
          (verdict true label (label_throws name pool label))
          pool
          (activate_pool lib dd path_fails name pool label)
  unfolding activate_pool
  activate_pool-IsAnswer name pool none = unfold verdict in refl
  activate_pool-IsAnswer name pool (some label) =
      saved-IsAnswer (label_throws name pool (some label)) label pool

  deserialized-IsAnswer :
      (last : Bool) (name : ℕ) (pool : Pool) (label : Option (List ℕ))
      → IsAnswer (verdict last label (label_throws name pool label)) pool (
          if last
          then activate_pool lib dd path_fails name pool label
          else (rejected there_are_errors_in_the_ddop any_other_pool_error, none))
  deserialized-IsAnswer true name pool label = activate_pool-IsAnswer name pool label
  deserialized-IsAnswer false name pool label = unfold verdict in refl

  abbrev pub received : ℕ → List (List ℕ) → Bool × Pool
  received name chunks =
      deserialize_chunks lib dd name chunks (false, set_second_edition_draft default_pool)

  -- The answer to a client that has uploaded these chunks.
  abbrev pub answer_to : ℕ → List (List ℕ) → Activation
  answer_to name chunks =
      let (last, pool) = received name chunks in
      let label = find_device (objects lib pool) in
      verdict last label (label_throws name pool label)

  activate_chunks-IsAnswer :
      (name : ℕ) (chunks : List (List ℕ))
      → IsAnswer
          (answer_to name chunks)
          (received name chunks).1
          (activate_chunks lib dd path_fails name chunks)
  unfolding activate_chunks
  activate_chunks-IsAnswer name chunks =
      let (last, pool) = received name chunks in
      deserialized-IsAnswer last name pool (find_device (objects lib pool))

  abbrev pub with_registered :
      ℕ → Option (ClientState Pool) → Map (ClientState Pool) → Map (ClientState Pool)
  with_registered partner none clients = clients
  with_registered partner (some state) clients = assign partner state clients

  abbrev IsFinished :
      Server Pool → ℕ → Activation × Option (ClientState Pool) → Server Pool × Activation → Type 0
  IsFinished server partner (v, state) (server', answer) =
      (answer ≡ v)
      × (server'.clients ≡ with_registered partner state server.clients)
      × (find partner server'.uploaded_pools ≡ some [])

  finish_activation-IsFinished :
      (server : Server Pool) (partner : ℕ) (v : Activation) (state : Option (ClientState Pool))
      → IsFinished server partner (v, state) (finish_activation lib dd server partner (v, state))
  unfolding finish_activation
  finish_activation-IsFinished server partner v none =
      (refl, refl, find-assign_self partner [] server.uploaded_pools)
  finish_activation-IsFinished server partner v (some state) =
      (refl, refl, find-assign_self partner [] server.uploaded_pools)

  pub uploaded_answer :
      (name : ℕ) (server : Server Pool) (partner : ℕ) (chunks : List (List ℕ))
      → find partner server.uploaded_pools ≡ some chunks
      → let (server', answer) = activate_object_pool lib dd path_fails name server partner in
        let v = answer_to name chunks in
        (answer ≡ v)
        × (server'.clients
            ≡ with_registered partner (registered v (received name chunks).1) server.clients)
        × (find partner server'.uploaded_pools ≡ some [])
  unfolding activate_object_pool activate_uploaded
  uploaded_answer name server partner chunks there =
      let v = answer_to name chunks in
      let state = registered v (received name chunks).1 in
      let result =
        ap (activate_uploaded lib dd path_fails name server partner) there
        ∙ ap (finish_activation lib dd server partner) (activate_chunks-IsAnswer name chunks) in
      subst (IsFinished server partner (v, state)) (sym result)
        (finish_activation-IsFinished server partner v state)
