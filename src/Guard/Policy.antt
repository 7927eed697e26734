-- ===== src/Guard/Policy.antt =====
-- src/model_passport/guard/engine.py: the actions of a policy, with `impact` of llm/entities.py.
--
-- A mapping is the list of its entries. `upper` is `str.upper`. Impacts are in tenths.
use model_passport.Prelude.{
  leb, if◌then◌else◌, any, letters, ℕ, String, Bool, List, [], ◌∷◌, same_text,
}
use model_passport.Llm.Entities.{Text}

pub data Action : Type 0 where
  mask redact block allow : Action

unfoldable pub Action-discrete : Discrete Action
Action-discrete = hlevel

-- `mapping.get(key, default)`
unfoldable pub value_at {ℓ} : {A : Type ℓ} → List (Text × A) → Text → A → A
unfolding same_text
value_at [] key default = default
value_at ((other, value) ∷ entries) key default =
    let rest = value_at entries key default in if same_text other key then value else rest

abbrev high_types : List String
high_types =
    "SSN" ∷ "CREDITCARDNUMBER" ∷ "CREDITCARDCVV" ∷ "PASSWORD" ∷ "PIN" ∷ "IBAN" ∷ "BIC"
    ∷ "ACCOUNTNUMBER" ∷ "MASKEDNUMBER" ∷ "BITCOINADDRESS" ∷ "ETHEREUMADDRESS" ∷ "LITECOINADDRESS"
    ∷ "PHONEIMEI" ∷ "VEHICLEVIN" ∷ "MEDICALRECORD" ∷ []

abbrev moderate_high_types : List String
moderate_high_types =
    "EMAIL" ∷ "PHONENUMBER" ∷ "DOB" ∷ "FULLNAME" ∷ "STREET" ∷ "BUILDINGNUMBER" ∷ "SECONDARYADDRESS"
    ∷ "USERNAME" ∷ "IPV4" ∷ "IPV6" ∷ "IP" ∷ "MAC" ∷ "NEARBYGPSCOORDINATE" ∷ "VEHICLEVRM"
    ∷ "ACCOUNTNAME" ∷ []

abbrev moderate_types : List String
moderate_types =
    "FIRSTNAME" ∷ "LASTNAME" ∷ "MIDDLENAME" ∷ "ZIPCODE" ∷ "CITY" ∷ "DATE" ∷ "AGE" ∷ "URL"
    ∷ "JOBTITLE" ∷ "JOBAREA" ∷ "JOBTYPE" ∷ "COMPANYNAME" ∷ "USERAGENT" ∷ "AMOUNT" ∷ "TIME" ∷ []

unfoldable pub is_among : Text → List String → Bool
unfolding same_text any
is_among key names = any (λ name. same_text (letters name) key) names

unfoldable pub impact : (Text → Text) → Text → ℕ
unfolding is_among
impact upper entity_type =
    if is_among (upper entity_type) high_types
    then 10
    else if is_among (upper entity_type) moderate_high_types
    then 8
    else if is_among (upper entity_type) moderate_types
    then 6
    else 4

pub record Policy : Type 0 where
  pub inbound : List (Text × Action)
  pub inbound_default : Action
  pub outbound : List (Text × Action)
  pub memorized : Action

-- `REQUEST_DEFAULTS`
abbrev pub request_defaults : List (Text × Action)
request_defaults = (letters "DATE", allow) ∷ []

unfoldable pub for_request : Policy → Text → Action
unfolding value_at
for_request policy entity_type =
    value_at policy.inbound entity_type
      (value_at request_defaults entity_type policy.inbound_default)

unfoldable pub for_reply : (Text → Text) → Policy → Text → Action
unfolding value_at impact
for_reply upper policy entity_type =
    value_at policy.outbound entity_type
      (if leb 10 (impact upper entity_type) then redact else allow)
