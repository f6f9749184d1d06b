-- ===== src/Command/Registry.antt =====
-- app/commands/registry.py. The parameter schemas are in the environment's `validates`.
use veyaan_core_backend.Prelude.{
  String, Bool, true, false, List, [], ◌∷◌, Option, none, some, ◌≡◌, str_eq, if◌then◌else◌, arith,
}
use veyaan_core_backend.Command.Model.{RiskLevel, low, medium, high}

pub record CommandDefinition : Type 0 where
  pub command_type : String
  pub risk_level : RiskLevel
  pub requires_approval : Bool
  pub delayed_execution_allowed : Bool
  pub description : String

abbrev pub Registry : Type 0
Registry = List (String × CommandDefinition)

-- `self._commands[definition.command_type] = definition`
unfoldable pub register : CommandDefinition → Registry → Registry
register d [] = (d.command_type, d) ∷ []
register d ((k, v) ∷ r) =
    let rest = register d r in if str_eq k d.command_type then (k, d) ∷ r else (k, v) ∷ rest

unfoldable pub get : String → Registry → Option CommandDefinition
get command_type [] = none
get command_type ((k, v) ∷ r) = if str_eq k command_type then some v else get command_type r

abbrev ping : CommandDefinition
ping = record {
  command_type = "system.ping";
  risk_level = low;
  requires_approval = false;
  delayed_execution_allowed = true;
  description = "Ping device to check connectivity";
}

abbrev get_status : CommandDefinition
get_status = record {
  command_type = "device.get_status";
  risk_level = low;
  requires_approval = false;
  delayed_execution_allowed = true;
  description = "Get device status information";
}

abbrev open_test : CommandDefinition
open_test = record {
  command_type = "app.open_test";
  risk_level = medium;
  requires_approval = false;
  delayed_execution_allowed = true;
  description = "Open a test application on device";
}

abbrev take_test_screenshot : CommandDefinition
take_test_screenshot = record {
  command_type = "system.take_test_screenshot";
  risk_level = medium;
  requires_approval = false;
  delayed_execution_allowed = true;
  description = "Take a test screenshot";
}

abbrev emergency_stop_test : CommandDefinition
emergency_stop_test = record {
  command_type = "system.emergency_stop_test";
  risk_level = high;
  requires_approval = true;
  delayed_execution_allowed = false;
  description = "Test emergency stop activation";
}

-- The registrations at the end of the file, in their order.
unfoldable pub command_registry : Registry
unfolding register
command_registry =
    register emergency_stop_test
      (register take_test_screenshot (register open_test (register get_status (register ping []))))

-- Whatever its name, a registered command of high risk needs approval and may not be delayed.
pub get-high_risk :
    (command_type : String) (d : CommandDefinition)
    → get command_type command_registry ≡ some d
    → d.risk_level ≡ high
    → (d.requires_approval ≡ true) × (d.delayed_execution_allowed ≡ false)
unfolding get command_registry
get-high_risk command_type d found risk = ground arith
