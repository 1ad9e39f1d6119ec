-- ===== src/Plugins/Instance.antt =====
-- tuned/plugins/instance/instance.py: an instance of a plugin, with the devices that it tunes.
use tuned.Base.{String, Bool, true, false, Option, List, []}
use tuned.Base.Dict.{Dict}
use tuned.Base.Text.{ℤ}

pub record Instance : Type 0 where
  pub name : String
  pub priority : ℤ
  pub devices_expression : String
  pub devices_udev_regex : Option String
  pub script_pre : Option String
  pub script_post : Option String
  pub options : Dict String String
  pub active : Bool
  pub has_static_tuning : Bool
  pub has_dynamic_tuning : Bool
  pub assigned_devices : List String
  pub processed_devices : List String

-- `Instance.__init__`
abbrev pub new_instance :
    String
    → ℤ
    → String
    → Option String
    → Option String
    → Option String
    → Dict String String
    → Instance
new_instance name priority devices_expression devices_udev_regex script_pre script_post options =
    record {
      name = name;
      priority = priority;
      devices_expression = devices_expression;
      devices_udev_regex = devices_udev_regex;
      script_pre = script_pre;
      script_post = script_post;
      options = options;
      active = true;
      has_static_tuning = false;
      has_dynamic_tuning = false;
      assigned_devices = [];
      processed_devices = [];
    }
