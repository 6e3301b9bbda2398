-- ===== src/Shard/Groups/Admin.antt =====
-- Who is an administrator, as long as the log sets no role's capabilities.
use slopmud.Prelude.{
  ℕ, ◌≡◌, refl, ap, ◌∙◌, subst, Bool, true, false, ◌&&◌, ◌||◌, Option, none, some, List, [], ◌∷◌,
  ◌++◌, arith, if◌then◌else◌, Bool-cases, ◌=?◌, nat_eq, list_eq, is_empty, any, All,
}
use slopmud.Prelude.Text.{Text, name_key}
use slopmud.Prelude.Map.{get, insert, remove, values}
use slopmud.Shard.Authority.{
  Capability, admin_all, same_capability, as_str, GroupRole, owner, officer, member, guest,
  GroupKind, admin_kind, guild_kind, class_kind, custom_kind, default_role_caps,
  implied_role_for_class,
}
use slopmud.Shard.Groups.{
  Group, GroupStore, empty_store, new, caps_for_role, GroupLogEntry, log_group_create,
  log_member_set, log_policy_set, log_role_caps_set, apply, update, set_member, set_policy, role_in,
  caps_in, effective_caps, effective_caps_for_principal,
}

-- Membership in a set of capabilities.
abbrev pub has : Capability → List Capability → Bool
has c = any (same_capability c)

abbrev pub is_admin_kind : GroupKind → Bool
is_admin_kind admin_kind = true
is_admin_kind guild_kind = false
is_admin_kind (class_kind c) = false
is_admin_kind custom_kind = false

abbrev pub is_privileged : Option GroupRole → Bool
is_privileged none = false
is_privileged (some owner) = true
is_privileged (some officer) = true
is_privileged (some member) = true
is_privileged (some guest) = false

-- Owners, officers and members of a group of administrators.
abbrev pub is_admin_of : Text → Group → Bool
is_admin_of principal g = is_admin_kind g.kind && is_privileged (get (name_key principal) g.members)

abbrev pub keeps_caps : GroupLogEntry → Bool
keeps_caps (log_group_create id kind name) = true
keeps_caps (log_member_set id who role) = true
keeps_caps (log_policy_set id key value) = true
keeps_caps (log_role_caps_set id role caps) = false

abbrev pub replay : GroupStore → List GroupLogEntry → GroupStore
replay s [] = s
replay s (e ∷ es) = replay (apply s e) es

any-append :
    (p : Capability → Bool) (xs ys : List Capability) → any p (xs ++ ys) ≡ any p xs || any p ys
any-append p [] ys = refl
any-append p (x ∷ xs) ys = ground (arith, any-append p xs ys, Bool-cases (p x))

IsDefault : Group → Type 0
IsDefault g = (r : GroupRole) → g.role_caps r ≡ default_role_caps g.kind r

AllDefault : List (ℕ × Group) → Type 0
AllDefault = All (λ p. IsDefault p.1)

has-default :
    (k : GroupKind) (r : GroupRole)
    → has admin_all (default_role_caps k r) ≡ is_admin_kind k && is_privileged (some r)
unfolding default_role_caps same_capability as_str
has-default admin_kind owner = refl
has-default admin_kind officer = refl
has-default admin_kind member = refl
has-default admin_kind guest = refl
has-default guild_kind owner = refl
has-default guild_kind officer = refl
has-default guild_kind member = refl
has-default guild_kind guest = refl
has-default custom_kind owner = refl
has-default custom_kind officer = refl
has-default custom_kind member = refl
has-default custom_kind guest = refl
has-default (class_kind c) owner = refl
has-default (class_kind c) officer = refl
has-default (class_kind c) member = refl
has-default (class_kind c) guest = refl

either :
    (b : Bool) (xs ys : List (ℕ × Group))
    → AllDefault xs
    → AllDefault ys
    → AllDefault (if b then xs else ys)
either true xs ys hx hy = hx
either false xs ys hx hy = hy

remove-AllDefault :
    (i : ℕ) (groups : List (ℕ × Group)) → AllDefault groups → AllDefault (remove i groups)
unfolding AllDefault
remove-AllDefault i [] h = tt
remove-AllDefault i (p ∷ groups) h =
    let rest = remove-AllDefault i groups h.1 in
    either (i =? p.0) (remove i groups) (p ∷ remove i groups) rest (h.0, rest)

get-IsDefault :
    (i : ℕ) (groups : List (ℕ × Group)) (g : Group)
    → AllDefault groups
    → get i groups ≡ some g
    → IsDefault g
unfolding AllDefault
get-IsDefault i [] g h e = absurd (ground (arith, e))
get-IsDefault i (p ∷ groups) g h e = first (get-IsDefault i groups g h.1) (i =? p.0) e
  where
    first :
        (get i groups ≡ some g → IsDefault g)
        → (b : Bool) → (if b then some p.1 else get i groups) ≡ some g
        → IsDefault g
    first later true same = subst IsDefault (same_group same) h.0
      where
        same_group : some p.1 ≡ some g → p.1 ≡ g
        same_group k = cc
    first later false there = later there

-- A change of a group that keeps its kind and its roles' capabilities.
update-AllDefault :
    (i : ℕ) (f : Group → Group) (groups : List (ℕ × Group))
    → ((g : Group) → IsDefault g → IsDefault (f g))
    → AllDefault groups
    → AllDefault (update i f groups)
unfolding update AllDefault
update-AllDefault i f groups keeps h = found (get i groups) refl
  where
    found :
        (o : Option Group)
        → get i groups ≡ o
        → AllDefault (elim o [ none ↦ groups | some g ↦ insert i (f g) groups ])
    found none e = h
    found (some g) e = (keeps g (get-IsDefault i groups g h e), remove-AllDefault i groups h)

set_member-IsDefault :
    (who : Text) (role : Option GroupRole) (g : Group)
    → IsDefault g
    → IsDefault (set_member who role g)
unfolding set_member IsDefault
set_member-IsDefault who role g h r = ground (arith, h r, Bool-cases (is_empty (name_key who)))

set_policy-IsDefault :
    (key : Text) (value : Option Text) (g : Group)
    → IsDefault g
    → IsDefault (set_policy key value g)
unfolding set_policy IsDefault
set_policy-IsDefault key value g h r = ground (arith, h r, Bool-cases (is_empty (name_key key)))

apply-AllDefault :
    (s : GroupStore) (e : GroupLogEntry)
    → keeps_caps e ≡ true
    → AllDefault s.groups
    → AllDefault (apply s e).groups
unfolding apply AllDefault IsDefault new
apply-AllDefault s (log_group_create id kind name) k h =
    ((λ r. refl), remove-AllDefault id s.groups h)
apply-AllDefault s (log_member_set id who role) k h =
    update-AllDefault id (set_member who role) s.groups (set_member-IsDefault who role) h
apply-AllDefault s (log_policy_set id key value) k h =
    update-AllDefault id (set_policy key value) s.groups (set_policy-IsDefault key value) h
apply-AllDefault s (log_role_caps_set id role caps) k h = absurd (ground (arith, k))

replay-AllDefault :
    (s : GroupStore) (es : List GroupLogEntry)
    → All (λ e. keeps_caps e ≡ true) es
    → AllDefault s.groups
    → AllDefault (replay s es).groups
replay-AllDefault s [] k h = h
replay-AllDefault s (e ∷ es) k h = replay-AllDefault (apply s e) es k.1 (apply-AllDefault s e k.0 h)

implied-unprivileged :
    (k : GroupKind) (class : Text)
    → is_admin_kind k && is_privileged (implied_role_for_class k class) ≡ false
unfolding implied_role_for_class
implied-unprivileged admin_kind class = refl
implied-unprivileged guild_kind class = refl
implied-unprivileged (class_kind c) class = refl
implied-unprivileged custom_kind class = refl

abbrev own_or : Option GroupRole → Option GroupRole → Option GroupRole
own_or implied o = elim o [ some r ↦ some r | none ↦ implied ]

abbrev caps_of : Group → Option GroupRole → List Capability
caps_of g o = elim o [ none ↦ [] | some r ↦ g.role_caps r ]

caps_in-is_admin_of :
    (g : Group) (principal class : Text)
    → IsDefault g
    → has admin_all (caps_in g principal class) ≡ is_admin_of principal g
unfolding caps_in role_in caps_for_role IsDefault
caps_in-is_admin_of g principal class h = of_member (get (name_key principal) g.members)
  where
    of_role :
        (o : Option GroupRole)
        → has admin_all (caps_of g o) ≡ is_admin_kind g.kind && is_privileged o
    of_role none = ground (arith, Bool-cases (is_admin_kind g.kind))
    of_role (some r) = ap (has admin_all) (h r) ∙ has-default g.kind r

    of_member :
        (o : Option GroupRole)
        → has admin_all (caps_of g (own_or (implied_role_for_class g.kind class) o))
          ≡ is_admin_kind g.kind && is_privileged o
    of_member none =
        of_role (implied_role_for_class g.kind class)
        ∙ implied-unprivileged g.kind class
        ∙ ground (arith, Bool-cases (is_admin_kind g.kind))
    of_member (some r) = of_role (some r)

effective_caps-admin :
    (groups : List (ℕ × Group)) (principal class : Text)
    → AllDefault groups
    → has admin_all (effective_caps (values groups) principal class)
      ≡ any (is_admin_of principal) (values groups)
unfolding effective_caps AllDefault
effective_caps-admin [] principal class h = refl
effective_caps-admin (p ∷ groups) principal class h = ground (
  arith,
  any-append (same_capability admin_all) (caps_in p.1 principal class)
      (effective_caps (values groups) principal class),
  caps_in-is_admin_of p.1 principal class h.0,
  effective_caps-admin groups principal class h.1,
)

-- After any log from the empty store that sets no role's capabilities, a character has the
-- capability `admin_all` just if it is owner, officer or member of a group of administrators,
-- whatever its class.
pub replay-is_admin_of :
    (es : List GroupLogEntry) (principal class : Text)
    → All (λ e. keeps_caps e ≡ true) es
    → let s = replay empty_store es in
      has admin_all (effective_caps_for_principal s principal class)
      ≡ any (is_admin_of principal) (values s.groups)
unfolding effective_caps_for_principal empty_store AllDefault
replay-is_admin_of es principal class h =
    effective_caps-admin (replay empty_store es).groups principal class
      (replay-AllDefault empty_store es h tt)
