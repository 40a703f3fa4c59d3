-- ===== src/Sampler/Servers.antt =====
-- t/exact_test_sampler_client.py: the servers of the configuration file, and the connections to them.
use Prim.Native.String.{String, ◌++◌ as ◌<>◌}
use text.Mathlib.Text.{◌==◌}
use umash.Prelude.{Bool, true, ◌||◌, Option, none, some, List, [], ◌∷◌, ◌++◌, if◌then◌else◌}
use umash.Python.{Result, ok, raise, ◌>>=◌, Error.file_not_found_error}

abbrev pub config_path : String
config_path = ".sampler_servers.ini"

abbrev pub secondary_config_path : String
secondary_config_path = "sampler_servers.ini.dist"

-- What the code uses of a ConfigParser that has read a file: its sections, in the order of the
-- iteration, and the options of a section, with the fallback if there is one.
pub record Config : Type 0 where
  pub sections : List String
  pub getboolean : String → String → Bool → Result Bool
  pub get : String → String → Option String → Result String

-- A server: its section and its address. The two settings are for the local executor.
pub record Servers : Type 0 where
  pub servers : List (String × String)
  pub use_local : Bool
  pub inline_eval : Bool

-- The loop over the sections.
unfoldable pub servers_of : Config → List String → Result (List (String × String))
servers_of config [] = ok []
servers_of config (host ∷ hosts) =
    if (host == "DEFAULT") || (host == "local_sampler_executor")
    then servers_of config hosts
    else (do
      hostname ← config.get host "hostname" (some host)
      port ← config.get host "port" none
      rest ← servers_of config hosts
      ok ((host, (hostname <> ":") <> port) ∷ rest))

-- The `try` block after config.read(path).
unfoldable pub read_servers : Config → Result Servers
read_servers config = do
  use_local ← config.getboolean "local_sampler_executor" "local_parallelism" true
  inline_eval ← config.getboolean "local_sampler_executor" "inline_evaluation" true
  servers ← servers_of config config.sections
  ok (record { servers = servers; use_local = use_local; inline_eval = inline_eval })

-- What a file that is not found gives.
abbrev pub no_servers : Servers
no_servers = record { servers = []; use_local = true; inline_eval = true }

unfoldable pub parse_sampler_servers : (String → Result Config) → String → Result Servers
parse_sampler_servers read path = elim (read path) [
  | ok config ↦ read_servers config
  | raise error ↦ elim error [ file_not_found_error ↦ ok no_servers | other ↦ raise other ]
]

module _ {Stub : Type 0} (connect : String → Result Stub) where
  -- The loop over the servers; a connection that fails is logged.
  unfoldable pub connect_all : List (String × String) → List Stub
  connect_all [] = []
  connect_all (server ∷ servers) = elim (connect server.1) [
    | ok stub ↦ stub ∷ connect_all servers
    | raise error ↦ connect_all servers
  ]

  -- [local_stub] if local_stub is not None else []
  unfoldable pub local_stubs : Option Stub → List Stub
  local_stubs none = []
  local_stubs (some stub) = stub ∷ []

  unfoldable pub get_sampler_servers :
      (String → Result Config) → Bool → Option Stub → Result (List Stub × Bool)
  get_sampler_servers read under_pytest local_stub =
      if under_pytest then ok (local_stubs local_stub, true) else (do
        first ← parse_sampler_servers read config_path
        found ← (elim first.servers [
          | [] ↦ parse_sampler_servers read secondary_config_path
          | server ∷ servers ↦ ok first
        ])
        let local = if found.use_local then local_stubs local_stub else []
        ok (local ++ connect_all found.servers, found.inline_eval))
