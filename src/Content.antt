-- ===== src/Content.antt =====
-- crates/kernel/src/content.rs, and `serde_json::Value`, which its blocks carry. An object is the
-- list of its members; a floating-point number is kept as its text.
use grist_agent.Prelude.{ℕ, Bool, true, false, ◌&&◌, Option, none, some, List, if◌then◌else◌}
use grist_agent.Prelude.Text.{Text, same}

pub data Number : Type 0 where
  unsigned : ℕ → Number
  negative : ℕ → Number
  float : Text → Number

mutual
  pub data Value : Type 0 where
    null : Value
    boolean : Bool → Value
    number : Number → Value
    string : Text → Value
    array : Values → Value
    object : Members → Value

  pub data Values : Type 0 where
    nil : Values
    cons : Value → Values → Values

  pub data Members : Type 0 where
    end : Members
    member : Text → Value → Members → Members

pub data TaskStatus : Type 0 where
  pending running succeeded failed cancelled : TaskStatus

mutual
  pub data ContentBlock : Type 0 where
    text : Text → ContentBlock
    thinking : Text → Option Text → ContentBlock
    tool_use : Text → Text → Value → ContentBlock
    tool_result : Text → ToolResultContent → Bool → ContentBlock
    image : Text → Text → ContentBlock
    task_result : Text → Text → TaskStatus → ToolResultContent → Bool → ContentBlock

  pub data ToolResultContent : Type 0 where
    blocks : ContentBlocks → ToolResultContent
    json : Value → ToolResultContent

  pub data ContentBlocks : Type 0 where
    no_blocks : ContentBlocks
    block : ContentBlock → ContentBlocks → ContentBlocks

pub data Role : Type 0 where
  system user assistant tool_role : Role

pub record Message : Type 0 where
  pub role : Role
  pub content : List ContentBlock

-- `Value::get` with a string.
abbrev pub member_of : Text → Members → Option Value
member_of key end = none
member_of key (member k v ms) = if same k key then some v else member_of key ms

abbrev pub value_get : Text → Value → Option Value
value_get key (object ms) = member_of key ms
value_get key _ = none

-- `Value::as_u64`
abbrev pub as_u64 : Value → Option ℕ
as_u64 (number (unsigned n)) = some n
as_u64 _ = none

-- `Value::as_str`
abbrev pub as_str : Value → Option Text
as_str (string s) = some s
as_str _ = none

-- `Value::as_bool`
abbrev pub as_bool : Value → Option Bool
as_bool (boolean b) = some b
as_bool _ = none

-- `ToolResultContent::is_valid`
abbrev is_plain : ContentBlock → Bool
is_plain (text s) = true
is_plain (image h m) = true
is_plain _ = false

abbrev all_plain : ContentBlocks → Bool
all_plain no_blocks = true
all_plain (block b bs) = is_plain b && all_plain bs

unfoldable pub is_valid : ToolResultContent → Bool
is_valid (json v) = true
is_valid (blocks bs) = all_plain bs
