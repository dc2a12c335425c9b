-- ===== src/Sandbox/Lifecycle/Ends.antt =====
-- How a start and a stop of sandbox/sandbox.py end.
use goga_tool_pybuggy.Prelude.{
  String, ◌≡◌, true, false, Option, none, some, List, [], ◌∷◌, ◌++◌, ok, err, Bool, ◌⊎◌,
}
use goga_tool_pybuggy.Prelude.Dict.{Dict}
use goga_tool_pybuggy.Sandbox.Operation.{DataOperation}
use goga_tool_pybuggy.Sandbox.Engine
use goga_tool_pybuggy.Sandbox.Engine.{Hooks, Engine, Cause}
use goga_tool_pybuggy.Sandbox.Engine.Laws.{TornDown}
use goga_tool_pybuggy.Sandbox.Startup.{StartupData, startup_operations}
use goga_tool_pybuggy.Sandbox.Lifecycle.{Runtime, Sandbox, Ended, attempt}

module _ {P : Type 0} where
  abbrev pub IsUp : String × Engine P → Type 0
  IsUp entry = (entry.1.started ≡ true) × (entry.1.has_container ≡ true)

module _ {P W : Type 0} (runtime : Runtime W) (hooks : String → Hooks P)
    (startup : StartupData) where
  -- Each engine is torn down, under its name.
  abbrev pub AllTornDown : Dict (Engine P) → Dict (Engine P) → Type 0
  AllTornDown [] [] = Unit
  AllTornDown [] (y ∷ after) = ⊥
  AllTornDown (x ∷ before) [] = ⊥
  AllTornDown (x ∷ before) (y ∷ after) =
      ((y.0 ≡ x.0) × TornDown (hooks x.0) x.1 y.1) × AllTornDown before after

  -- The world without the container of the instance, if there is one, and then without the network, if
  -- there is one. What the container runtime answers does not matter.
  abbrev pub without_instance : Bool → W → W
  without_instance true w = (runtime.stop_instance w).1
  without_instance false w = w

  abbrev pub without_network : Option String → W → W
  without_network none w = w
  without_network (some network) w = (runtime.remove_network network w).1

  -- Everything of the sandbox `f` is removed in `s`: its engines, its instance and its network.
  pub record IsRemoved (f s : Sandbox P W) : Type 0 where
    pub engines_torn_down : AllTornDown f.engines s.engines
    pub world_cleared :
        s.world ≡ without_network f.network (without_instance f.has_instance f.world)
    pub no_instance : s.has_instance ≡ false
    pub no_network : s.network ≡ none

  -- Every engine is up, and each journal has grown by the startup data of its service.
  abbrev pub StartedUp : Dict (Engine P) → Dict (Engine P) → Type 0
  StartedUp [] [] = Unit
  StartedUp [] (y ∷ after) = ⊥
  StartedUp (x ∷ before) [] = ⊥
  StartedUp (x ∷ before) (y ∷ after) =
      ((y.0 ≡ x.0)
        × IsUp y
        × (ops : List DataOperation) × (startup_operations startup x.0 ≡ ok ops)
        × (y.1.journal ≡ x.1.journal ++ ops))
      × StartedUp before after

  -- Every engine is up with its startup data, and the instance and the network are there.
  abbrev pub IsRunning : Sandbox P W → Sandbox P W → Type 0
  IsRunning s s' =
      StartedUp s.engines s'.engines
      × (s'.has_instance ≡ true)
      × (s'.network ≡ some runtime.new_network)

  abbrev pub SandboxStartEnds : Sandbox P W → Ended P W → Type 0
  SandboxStartEnds s (ok _, s') =
      IsRunning s s' × (url : String) × (runtime.read_base_url s'.world ≡ ok url)
  SandboxStartEnds s (err c, s') =
      ((f : Sandbox P W) × (attempt runtime hooks startup s ≡ (err c, f)) × IsRemoved f s')
      ⊎ (IsRunning s s' × (runtime.read_base_url s'.world ≡ err c))
