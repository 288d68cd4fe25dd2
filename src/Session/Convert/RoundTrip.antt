-- ===== src/Session/Convert/RoundTrip.antt =====
-- internal/session/convert.go and internal/service/direct_chat.go: which conversions lose nothing.
use meshserver.Base.{◌≡◌, refl, true, arith}
use meshserver.Base.Exec.{ok}
use meshserver.Model.Enums.{Role, MessageType, is_known_role}
use meshserver.Service.Direct.{WireType, message_type_to_proto, proto_to_message_type}
use meshserver.Session.Wire.{WireRole}
use meshserver.Session.Convert.{
  to_proto_message_type, to_domain_message_type, to_domain_member_role, to_proto_member_role,
}

-- A role that the protocol can name is the one that its conversion to the domain and back gives, and
-- the conversion to the domain of the protocol's word for a known role is that role.
pub to_proto_member_role-to_domain_member_role :
    ((w : WireRole) (r : Role) → to_domain_member_role w ≡ ok r → to_proto_member_role r ≡ w)
    × ((r : Role) → is_known_role r ≡ true → to_domain_member_role (to_proto_member_role r) ≡ ok r)
unfolding to_proto_member_role to_domain_member_role
to_proto_member_role-to_domain_member_role = (back, forth)
  where
    back : (w : WireRole) (r : Role) → to_domain_member_role w ≡ ok r → to_proto_member_role r ≡ w
    back WireRole.owner r h = ground (arith, h)
    back WireRole.admin r h = ground (arith, h)
    back WireRole.member r h = ground (arith, h)
    back WireRole.subscriber r h = ground (arith, h)
    back WireRole.unspecified r h = cc h

    forth :
        (r : Role) → is_known_role r ≡ true → to_domain_member_role (to_proto_member_role r) ≡ ok r
    forth Role.owner h = refl
    forth Role.admin h = refl
    forth Role.member h = refl
    forth Role.subscriber h = refl
    forth (Role.other t) h = cc h

-- The session's conversions of message types are those of the direct messaging service.
pub message_types-agree :
    ((t : MessageType) → to_proto_message_type t ≡ message_type_to_proto t)
    × ((w : WireType) → to_domain_message_type w ≡ proto_to_message_type w)
unfolding to_proto_message_type to_domain_message_type message_type_to_proto proto_to_message_type
message_types-agree = (one, two)
  where
    one : (t : MessageType) → to_proto_message_type t ≡ message_type_to_proto t
    one MessageType.text = refl
    one MessageType.image = refl
    one MessageType.file = refl
    one MessageType.system = refl
    one (MessageType.other t) = refl

    two : (w : WireType) → to_domain_message_type w ≡ proto_to_message_type w
    two WireType.text = refl
    two WireType.image = refl
    two WireType.file = refl
    two WireType.system = refl
    two WireType.unspecified = refl
