-- ===== src/Platform/CommandLines.antt =====
-- The part of Chromium's base/command_line.h that browserd uses, and the names that it takes from
-- Chromium's headers of switches.
use browserd.Shared.{String, Text, Bool, true, ◌≡◌, ◌≢◌}

-- `value` is `GetSwitchValueASCII`, which is empty for a switch that is not there;
-- `append_switch_ascii` with an empty value is `AppendSwitch`.
pub record CommandLines : Type 1 where
  pub CommandLine : Type 0
  pub has_switch : CommandLine → String → Bool
  pub value : CommandLine → String → Text
  pub append_switch_ascii : CommandLine → String → Text → CommandLine
  pub remove_switch : CommandLine → String → CommandLine
  pub disable_features : String
  pub enable_features : String
  pub process_type : String
  pub gpu_process : Text
  pub renderer_process : Text
  pub has-append :
      (c : CommandLine) (n : String) (v : Text) → has_switch (append_switch_ascii c n v) n ≡ true
  pub has-append-other :
      (c : CommandLine) (n m : String) (v : Text)
      → m ≢ n
      → has_switch (append_switch_ascii c n v) m ≡ has_switch c m
  pub has-remove-other :
      (c : CommandLine) (n m : String) → m ≢ n → has_switch (remove_switch c n) m ≡ has_switch c m
  pub value-append :
      (c : CommandLine) (n : String) (v : Text) → value (append_switch_ascii c n v) n ≡ v
  pub value-append-other :
      (c : CommandLine) (n m : String) (v : Text)
      → m ≢ n
      → value (append_switch_ascii c n v) m ≡ value c m
  pub value-remove-other :
      (c : CommandLine) (n m : String) → m ≢ n → value (remove_switch c n) m ≡ value c m
  pub disable-ne-nil : disable_features ≢ ""
