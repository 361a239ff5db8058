-- ===== src/Tests.antt =====
-- The framework's components on concrete inputs.
mod Actor
mod Ordered
mod Host
mod Registry
mod Egress
mod Scope
mod Dispatcher
mod Observers
mod Replay
mod Runtime
mod App
mod Control
use bbt_framework.Infra.{Infra, Error, ErrorCode, other}
use bbt_framework.Prelude.{[], none}

-- An infra that leaves the fields of a new error empty and accepts all details.
instance abbrev test_infra : Infra
test_infra = record {
  blank_error = record {
    code = other 0;
    message = "";
    domain = "";
    domain_code = "";
    details = [];
  };
  validate_error_details = λ _. none;
}
