-- ===== src/WebAuth/Accounts.antt =====
-- The accounts of those who call: `get_or_create_user` and `get_user_by_id` of database/queries.py.
use gift_hub.Prelude.{
  ℕ, suc, ◌==◌, String, Bool, not, ◌&&◌, Option, none, some, is_some, List, [], ◌∷◌, ◌++◌, find,
  update_rows, if◌then◌else◌,
}
use gift_hub.Prelude.Texts.{is_empty}
use gift_hub.Orders.{truthy, text_or}

pub record Account : Type 0 where
  pub id : ℕ
  pub first_name : String
  pub last_name : Option String
  pub username : Option String
  pub photo_url : Option String
  pub referrer_id : Option ℕ
  pub referrals_count : ℕ
  pub role : String

-- The arguments of `get_or_create_user`.
pub record Profile : Type 0 where
  pub first_name : String
  pub last_name : Option String
  pub username : Option String
  pub photo_url : Option String
  pub referrer_id : Option ℕ

abbrev pub has_account_id : ℕ → Account → Bool
has_account_id i a = a.id == i

abbrev pub get_user_by_id : ℕ → List Account → Option Account
get_user_by_id i accounts = find (has_account_id i) accounts

-- The referrer, when it is another user of the table.
abbrev other_user : ℕ → List Account → Option ℕ → Option ℕ
other_user i accounts none = none
other_user i accounts (some r) =
    if not (r == i) && is_some (get_user_by_id r accounts) then some r else none

abbrev count_referral : Option ℕ → List Account → List Account
count_referral none accounts = accounts
count_referral (some r) accounts =
    update_rows (has_account_id r) (λ a. record a { referrals_count = suc a.referrals_count })
      accounts

abbrev new_account : ℕ → Profile → Option ℕ → Account
new_account i p referrer = record {
  id = i;
  first_name = p.first_name;
  last_name = some (text_or "" p.last_name);
  username = p.username;
  photo_url = p.photo_url;
  referrer_id = referrer;
  referrals_count = 0;
  role = "user";
}

-- The given value, or the one before.
abbrev changed : Option String → Option String → Option String
changed old none = old
changed old (some t) = some t

abbrev renamed : Profile → Account → Account
renamed p a = record a {
  first_name = if is_empty p.first_name then a.first_name else p.first_name;
  last_name = changed a.last_name p.last_name;
  username = changed a.username p.username;
  photo_url = changed a.photo_url p.photo_url;
}

abbrev pub create_or_rename : ℕ → Profile → List Account → Option Account → Account × List Account
create_or_rename i p accounts none =
    let referrer = other_user i accounts (truthy p.referrer_id) in
    let a = new_account i p referrer in (a, count_referral referrer accounts ++ a ∷ [])
create_or_rename i p accounts (some a) =
    (renamed p a, update_rows (has_account_id i) (renamed p) accounts)

unfoldable pub get_or_create_user : ℕ → Profile → List Account → Account × List Account
get_or_create_user i p accounts = create_or_rename i p accounts (get_user_by_id i accounts)
