-- ===== src/Config.antt =====
-- crates/tinywasm/src/engine.rs: the sizes of the stacks. The default configuration is fixed stacks.
use tinywasm.Prelude.{ℕ, ◌*◌, Bool, true, false, Option, none, some, leb, if◌then◌else◌}

pub record StackConfig : Type 0 where
  pub initial_size : ℕ
  pub max_size : ℕ
  pub dynamic : Bool

unfoldable pub fixed : ℕ → StackConfig
fixed size = record { initial_size = size; max_size = size; dynamic = false }

-- `StackConfig::dynamic`; `none` is the failed assertion.
unfoldable dynamic_config : ℕ → ℕ → Option StackConfig
dynamic_config initial_size max_size =
    if leb initial_size max_size
    then some (record { initial_size = initial_size; max_size = max_size; dynamic = true })
    else none

-- The stacks of `Config`; the fuel policy and the memory backend are not modelled here.
pub record Config : Type 0 where
  pub value_stack_32 : StackConfig
  pub value_stack_64 : StackConfig
  pub value_stack_128 : StackConfig
  pub call_stack : StackConfig

-- `DEFAULT_VALUE_STACK_32_SIZE` and its like; `Config::default`
unfoldable default_config : Config
default_config = record {
  value_stack_32 = fixed (36 * 1024);
  value_stack_64 = fixed (32 * 1024);
  value_stack_128 = fixed (4 * 1024);
  call_stack = fixed 1024;
}
