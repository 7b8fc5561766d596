-- ===== src/Server.antt =====
-- `MyTCServer` of include/task_controller.hpp and src/task_controller.cpp: the clients, the chunks of
-- the pools that they upload, and the callbacks that only store or erase. A control function is the
-- number of its handle, which is the order in which the maps hold it. Each entry point runs whole
-- under `clientsMutex`, so a run of the server is a sequence of calls.
pub mod ValueCommand
pub mod Setpoints
pub mod Measurement
pub mod Activation
pub mod Run
pub mod Invariant
pub mod RoundTrip
use aog_task_controller.Prelude.{
  ℕ, ◌≡◌, Bool, true, false, List, [], ◌∷◌, ◌++◌, Option, none, some, if◌then◌else◌,
}
use aog_task_controller.Prelude.Map.{Map, find, assign, erase, contains, or_default}
use aog_task_controller.Client.{ClientState, new_state}

pub record Server (P : Type 0) : Type 0 where
  pub clients : Map (ClientState P)
  -- oldest chunk first
  pub uploaded_pools : Map (List (List ℕ))

-- What the base class puts on the bus. A value is the 32 bits of its `int32_t`.
pub data Message : Type 0 where
  set_value : (client ddi element_number value : ℕ) → Message
  change_threshold : (client ddi element_number threshold : ℕ) → Message
  time_interval : (client ddi element_number interval : ℕ) → Message

module _ {P : Type 0} where
  abbrev pub empty_server : Server P
  empty_server = record { clients = []; uploaded_pools = [] }

  -- `clients[partner]`, where `fresh` is the pool of a new `ClientState`.
  unfoldable pub client_at : P → Server P → ℕ → ClientState P
  client_at fresh server partner = or_default (find partner server.clients) (new_state fresh)

  unfoldable pub set_client : Server P → ℕ → ClientState P → Server P
  set_client server partner state = record server { clients = assign partner state server.clients }

  unfoldable pub deactivate_object_pool : Server P → ℕ → Server P × Bool
  deactivate_object_pool server partner = (
    record server {
      clients = erase partner server.clients;
      uploaded_pools = erase partner server.uploaded_pools;
    },
    true,
  )

  unfoldable pub delete_device_descriptor_object_pool : Server P → ℕ → Server P × Bool
  delete_device_descriptor_object_pool server partner = (
    record server {
      clients = erase partner server.clients;
      uploaded_pools = erase partner server.uploaded_pools;
    },
    true,
  )

  -- The chunks that the client uploaded stay.
  unfoldable pub on_client_timeout : Server P → ℕ → Server P
  on_client_timeout server partner = record server { clients = erase partner server.clients }

  -- `appendToPool` is not read.
  unfoldable pub store_device_descriptor_object_pool :
      Server P → ℕ → List ℕ → Bool → Server P × Bool
  store_device_descriptor_object_pool server partner binary_pool append =
      let queue = or_default (find partner server.uploaded_pools) [] in
      (
        record server {
          uploaded_pools = assign partner (queue ++ (binary_pool ∷ [])) server.uploaded_pools;
        },
        true,
      )

  unfoldable pub get_clients : Server P → Map (ClientState P)
  get_clients server = server.clients

  -- `for (auto &client : clients)`: each state is updated in place, and what is sent is in order.
  unfoldable pub for_clients :
      (ℕ → ClientState P → ClientState P × List Message)
      → Map (ClientState P)
      → Map (ClientState P) × List Message
  for_clients body [] = ([], [])
  for_clients body ((client, state) ∷ rest) =
      let (state', sent) = body client state in
      let (rest', later) = for_clients body rest in ((client, state') ∷ rest', sent ++ later)
