-- ===== src/Panels/Lang.antt =====
-- The language of a request and the catalogs of the texts that the handlers show
-- (src/internal/panel/i18n.go, src/internal/admin/i18n.go). fmt.Sprintf is an argument.
use lxc_hosting.Base.{
  ℕ, Bool, true, false, List, [], ◌∷◌, ◌==◌, if◌then◌else◌, Text, text_eq, codes, String, Option,
  none, some, Map, get,
}
use lxc_hosting.Std.Strings.{trim_space}
use lxc_hosting.Names.{to_lower}
use lxc_hosting.Web.Requests.{cut_prefix}

abbrev pub lang_zh : Text
lang_zh = codes "zh"

abbrev pub lang_en : Text
lang_en = codes "en"

-- strings.HasPrefix
abbrev pub is_some {ℓ} : {A : Type ℓ} → Option A → Bool
is_some none = false
is_some (some a) = true

abbrev cons_first : ℕ → List Text → List Text
cons_first c [] = (c ∷ []) ∷ []
cons_first c (t ∷ ts) = (c ∷ t) ∷ ts

-- strings.Split with a separator of one character
unfoldable pub split : ℕ → Text → List Text
split sep [] = [] ∷ []
split sep (c ∷ s) =
    let fields = split sep s in if c == sep then [] ∷ fields else cons_first c fields

-- `strings.SplitN(s, sep, 2)[0]`
unfoldable pub before : ℕ → Text → Text
before sep [] = []
before sep (c ∷ s) = if c == sep then [] else c ∷ before sep s

-- an empty text is no language: the next source is asked
abbrev pub or_else : Text → Text → Text
or_else [] next = next
or_else (c ∷ l) next = c ∷ l

abbrev language : Text → Text
language v =
    if is_some (cut_prefix lang_zh v)
    then lang_zh
    else if is_some (cut_prefix lang_en v)
    then lang_en
    else []

module _ (lower_other : ℕ → ℕ) where
  -- normalLang
  unfoldable pub normal_lang : Text → Text
  normal_lang v = language (to_lower lower_other (trim_space v))

  abbrev lang_of_tag : Text → Text
  lang_of_tag [] = []
  lang_of_tag (c ∷ tag) = normal_lang (c ∷ tag)

  unfoldable pub lang_of_fields : List Text → Text
  lang_of_fields [] = lang_en
  lang_of_fields (field ∷ fields) =
      or_else (lang_of_tag (trim_space (before b';' field))) (lang_of_fields fields)

  -- langFromHeader
  unfoldable pub lang_from_header : Text → Text
  unfolding lang_of_fields split
  lang_from_header header = lang_of_fields (split b',' header)

  abbrev cookie_lang : Option Text → Text
  cookie_lang none = []
  cookie_lang (some v) = normal_lang v

  -- lang: the parameter of the query, the cookie, the header
  unfoldable pub request_lang : Text → Option Text → Text → Text
  unfolding normal_lang lang_from_header
  request_lang query cookie header =
      or_else (normal_lang query) (or_else (cookie_lang cookie) (lang_from_header header))

pub record Translation : Type 0 where
  pub zh : Text
  pub en : Text

abbrev entry : String → String → String → Text × Translation
entry key zh en = (codes key, record { zh = codes zh; en = codes en })

abbrev pub panel_catalog : Map Translation
panel_catalog =
    entry "err_bad_login" "用户名或密码错误" "invalid credentials"
    ∷ entry "err_too_many" "尝试过于频繁，请 1 分钟后再试" "Too many attempts, please wait 1 minute"
    ∷ entry "err_pass_mismatch" "两次输入的密码不一致" "The two passwords do not match"
    ∷ entry "new_root_password" "新的 root 密码：\n%[1]v" "New root password:\n%[1]v"
    ∷ entry "reinstall_done" "重装完成，新的 root 密码：\n%[1]v" "Reinstall complete. Root password:\n%[1]v"
    ∷ []

abbrev pub admin_catalog : Map Translation
admin_catalog =
    entry "err_bad_login" "管理员密码错误" "invalid admin password"
    ∷ entry "err_too_many" "尝试过于频繁，请 1 分钟后再试" "Too many attempts, please wait 1 minute"
    ∷ entry "err_not_configured" "管理员尚未初始化 — 请运行 `vps admin-passwd`"
        "admin not configured yet — run `vps admin-passwd`"
    ∷ entry "err_pass_mismatch" "两次输入的密码不一致" "The two passwords do not match"
    ∷ entry "err_pass_short" "管理员密码至少需要 14 位" "admin password must be at least 14 characters"
    ∷ entry "user_created" "用户已创建：\n%[1]v" "user created:\n%[1]v"
    ∷ entry "user_deleted" "用户 %[1]v 已删除" "user %[1]v deleted"
    ∷ entry "quota_updated" "已更新 %[1]v 的配额" "quotas updated for %[1]v"
    ∷ entry "power_ok" "%[1]v %[2]v 成功" "%[2]v %[1]v ok"
    ∷ entry "new_panel_password" "用户 %[1]v 的面板密码已重置：\n%[2]v\n面板：%[3]v"
        "%[1]v panel password reset:\n%[2]v\npanel: %[3]v"
    ∷ entry "admin_pass_changed" "管理员密码已修改" "admin password changed"
    ∷ entry "err_invalid_disk" "磁盘必须是整数 GiB" "disk must be an integer (GiB)"
    ∷ entry "domain_deleted" "域名 %[1]v 已删除" "domain %[1]v deleted"
    ∷ entry "domains_updated" "域名设置已保存" "domain settings saved"
    ∷ []

module _ (sprintf : Text → List Text → Text) where
  abbrev translated : Text → Text → List Text → Option Translation → Text
  translated l key args none = key
  translated l key args (some t) =
      if text_eq l lang_zh then sprintf t.zh args else sprintf t.en args

  -- tr
  unfoldable pub tr : Map Translation → Text → Text → List Text → Text
  tr catalog l key args = translated l key args (get key catalog)
