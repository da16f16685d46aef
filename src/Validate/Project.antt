-- ===== src/Validate/Project.antt =====
-- validate.go: projects and backup schedules. What `net` and `time` parse is a parameter.
use Prim.Native.Char.{code}
use text.Mathlib.Text.{starts_with}
use mongodb_atlas_kubernetes.Base.{
  ℕ, ◌+◌, String, Bool, true, false, not, Option, none, some, List, [], ◌∷◌, ◌++◌, elem,
  if◌then◌else◌, str_eq, ◌&&◌, ◌||◌, is_empty, is_empty_text, concat, nat_eq,
}
use mongodb_atlas_kubernetes.Base.Int.{ℤ}
use mongodb_atlas_kubernetes.Base.Errors.{GoError, plain, joined, Answer, ok, err}
use mongodb_atlas_kubernetes.Validate.InstanceSize.{is_digit}

-- `err = errors.Join(err, e)`
abbrev pub join_error : Option GoError → GoError → Option GoError
join_error none e = some e
join_error (some f) e = some (joined f e)

abbrev pub join_if : Bool → GoError → Option GoError → Option GoError
join_if true e old = join_error old e
join_if false e old = old

-- time.Time: the instant, in nanoseconds as the clock counts them, and the zone, in seconds east
pub record Time : Type 0 where
  pub instant : ℕ
  pub zone : ℤ

-- net.ParseCIDR and net.ParseIP: is there no error? And time.Parse and Time.Format, with a layout
-- first.
pub record Parsing : Type 0 where
  pub is_cidr : String → Bool
  pub is_ip : String → Bool
  pub parse_time : String → String → Answer Time
  pub format_time : String → Time → String

-- the entries of spec.projectIpAccessList
pub record AccessEntry : Type 0 where
  pub ip_address : String
  pub cidr_block : String
  pub aws_security_group : String
  pub delete_after_date : String

-- the rest of the text after its digits
abbrev pub after_digits : String → String
after_digits String.[] = String.[]
after_digits (String.◌∷◌ c s) =
    let rest = after_digits s in if is_digit c then rest else String.◌∷◌ c s

abbrev pub after_slash : String → Option String
after_slash String.[] = none
after_slash (String.◌∷◌ c s) = if nat_eq (code c) 47 then some s else none

abbrev pub is_group : Option String → Bool
is_group none = false
is_group (some s) = starts_with s "sg-"

-- The regular expression `^([0-9]*/)?sg-([0-9]*)`, which need not reach the end of the text.
unfoldable pub matches_security_group : String → Bool
matches_security_group s = starts_with s "sg-" || is_group (after_slash (after_digits s))

module _ (parsing : Parsing) where
  abbrev pub or_else {ℓ} : {A : Type ℓ} → Answer A → Answer A → Answer A
  or_else (ok a) next = ok a
  or_else (err e) next = next

  -- internal/timeutil/timeutil.go
  unfoldable pub parse_iso8601 : String → Answer Time
  parse_iso8601 t = or_else (parsing.parse_time "2006-01-02T15:04:05-07" t) (
      or_else (parsing.parse_time "2006-01-02T15:04:05-07:00" t) (
        or_else (parsing.parse_time "2006-01-02T15:04:05" t) (
          or_else (parsing.parse_time "2006-01-02" t) (
            or_else (parsing.parse_time "2006-01-02T15:04:05-0700" t)
              (parsing.parse_time "2006-01-02T15:04:05.999Z" t)))))

  -- The time in its own zone, to the millisecond, with a Z as the text.
  unfoldable pub format_iso8601 : Time → String
  format_iso8601 t = parsing.format_time "2006-01-02T15:04:05.999Z" t

  abbrev pub has_failed_answer : Answer Time → Bool
  has_failed_answer (ok t) = false
  has_failed_answer (err e) = true

  abbrev pub cidr_errors : AccessEntry → Option GoError → Option GoError
  cidr_errors i old =
      if not (is_empty_text i.cidr_block)
      then join_if (not (parsing.is_cidr i.cidr_block))
          (plain (concat "invalid cidrBlock: " i.cidr_block))
          (join_if (not (is_empty_text i.aws_security_group) || not (is_empty_text i.ip_address))
            (plain "don't set ipAddress or awsSecurityGroup when configuring cidrBlock") old)
      else old

  abbrev pub ip_errors : AccessEntry → Option GoError → Option GoError
  ip_errors i old =
      if not (is_empty_text i.ip_address)
      then join_if (not (parsing.is_ip i.ip_address))
          (plain (concat "invalid ipAddress: " i.ip_address))
          (join_if (not (is_empty_text i.aws_security_group) || not (is_empty_text i.cidr_block))
            (plain "don't set cidrBlock or awsSecurityGroup when configuring ipAddress") old)
      else old

  abbrev pub group_errors : AccessEntry → Option GoError → Option GoError
  group_errors i old =
      if not (is_empty_text i.aws_security_group)
      then join_if (not (matches_security_group i.aws_security_group))
          (plain (concat "invalid awsSecurityGroup: " i.aws_security_group))
          (join_if (not (is_empty_text i.ip_address) || not (is_empty_text i.cidr_block))
            (plain "don't set cidrBlock or ipAddress when configuring awsSecurityGroup") old)
      else old

  abbrev pub date_errors : AccessEntry → Option GoError → Option GoError
  date_errors i old =
      if not (is_empty_text i.delete_after_date)
      then join_if (has_failed_answer (parse_iso8601 i.delete_after_date))
          (plain (
            concat "invalid deleteAfterDate: "
              (concat i.delete_after_date ". value should follow ISO8601 format")))
          old
      else old

  -- The body of the loop of projectIPAccessList.
  unfoldable pub entry_errors : AccessEntry → Option GoError → Option GoError
  unfolding parse_iso8601 matches_security_group
  entry_errors i old = date_errors i (
      group_errors i (
        ip_errors i (
          cidr_errors i (
            join_if
              (is_empty_text i.ip_address
                && is_empty_text i.cidr_block
                && is_empty_text i.aws_security_group)
              (plain "invalid config! one of option must be configured") old))))

  unfoldable pub access_list_errors : Option GoError → List AccessEntry → Option GoError
  unfolding entry_errors
  access_list_errors old [] = old
  access_list_errors old (i ∷ is) = access_list_errors (entry_errors i old) is

  unfoldable pub project_ip_access_list : List AccessEntry → Option GoError
  unfolding access_list_errors
  project_ip_access_list items = if is_empty items then none else access_list_errors none items

-- the loop of projectCustomRoles, with the names seen before
unfoldable pub role_errors : List String → Option GoError → List String → Option GoError
role_errors seen old [] = old
role_errors seen old (n ∷ ns) =
    role_errors (n ∷ seen)
      (join_if (elem n seen)
        (plain (
          concat "the custom role \""
            (concat n "\" is duplicate. custom role name must be unique")))
        old)
      ns

unfoldable pub project_custom_roles : List String → Option GoError
unfolding role_errors
project_custom_roles names = if is_empty names then none else role_errors [] none names

-- AlertConfiguration with reflect.DeepEqual; the text of a position, and of the configuration.
module _ {A : Type 0} (deep_equal : A → A → Bool) (show : A → String) (show_int : ℕ → String) where
  abbrev pub duplicate_alert : ℕ → A → List A → ℕ → Option GoError
  duplicate_alert j cfg [] i = none
  duplicate_alert j cfg (seen ∷ more) i =
      let rest = duplicate_alert j cfg more (i + 1) in
      if deep_equal seen cfg
      then some (
          plain (
            concat "alert config at position " (
              concat (show_int j) (
                concat " is a duplicate of alert config at position "
                  (concat (show_int i) (concat ": " (show cfg)))))))
      else rest

  abbrev pub or_go_on : Option GoError → Option GoError → Option GoError
  or_go_on none next = next
  or_go_on (some e) next = some e

  unfoldable pub alerts_from : ℕ → List A → List A → Option GoError
  alerts_from j seen [] = none
  alerts_from j seen (cfg ∷ rest) =
      or_go_on (duplicate_alert j cfg seen 0) (alerts_from (j + 1) (seen ++ cfg ∷ []) rest)

  unfoldable pub alert_configs : List A → Option GoError
  unfolding alerts_from
  alert_configs cfgs = alerts_from 0 [] cfgs

  -- spec of an AtlasProject, as far as it is read
  pub record ProjectSpec : Type 0 where
    pub region_usage_restrictions : String
    pub access_list : List AccessEntry
    pub custom_role_names : List String
    pub alert_sync_enabled : Bool
    pub alerts : List A

  unfoldable pub project_error : Parsing → ProjectSpec → Bool → Option GoError
  unfolding project_ip_access_list project_custom_roles alert_configs
  project_error parsing p is_gov =
      if not is_gov
        && not (is_empty_text p.region_usage_restrictions)
        && not (str_eq p.region_usage_restrictions "NONE")
      then some (plain "regionUsageRestriction can be used only with Atlas for government")
      else or_go_on (project_ip_access_list parsing p.access_list) (
          or_go_on (project_custom_roles p.custom_role_names)
            (if p.alert_sync_enabled then alert_configs p.alerts else none))
