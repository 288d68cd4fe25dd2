-- ===== src/Model/Enums.antt =====
-- internal/space/model.go, internal/channel/model.go and internal/message/model.go: the string
-- types. Go allows any string in them, so each has a constructor for the others.
use meshserver.Base.{Bool, true, false, ◌||◌}
use meshserver.Base.Text.{Text, is_empty, trim_space}

pub data Visibility : Type 0 where
  public private : Visibility
  other : Text → Visibility

pub data Role : Type 0 where
  owner admin member subscriber : Role
  other : Text → Role

-- `TypeSpace` is "group" and `TypeBroadcast` is "channel".
pub data ChannelType : Type 0 where
  group broadcast : ChannelType
  other : Text → ChannelType

pub data MessageType : Type 0 where
  text image file system : MessageType
  other : Text → MessageType

pub data Status : Type 0 where
  normal deleted : Status

abbrev pub is_owner : Role → Bool
is_owner Role.owner = true
is_owner _ = false

abbrev pub is_admin : Role → Bool
is_admin Role.admin = true
is_admin _ = false

-- `role == owner || role == admin`, the test of every administrative request.
abbrev pub is_manager : Role → Bool
is_manager r = is_owner r || is_admin r

abbrev pub is_public : Visibility → Bool
is_public Visibility.public = true
is_public _ = false

abbrev pub is_group : ChannelType → Bool
is_group ChannelType.group = true
is_group _ = false

abbrev pub is_broadcast : ChannelType → Bool
is_broadcast ChannelType.broadcast = true
is_broadcast _ = false

abbrev pub is_normal : Status → Bool
is_normal Status.normal = true
is_normal Status.deleted = false

abbrev pub is_text : MessageType → Bool
is_text MessageType.text = true
is_text _ = false

-- The role as a string is blank.
abbrev pub is_blank_role : Role → Bool
is_blank_role (Role.other t) = is_empty (trim_space t)
is_blank_role _ = false

-- One of the four roles that the database knows.
abbrev pub is_known_role : Role → Bool
is_known_role (Role.other t) = false
is_known_role _ = true

abbrev pub is_known_visibility : Visibility → Bool
is_known_visibility (Visibility.other t) = false
is_known_visibility _ = true
