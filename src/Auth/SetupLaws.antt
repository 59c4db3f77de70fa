-- ===== src/Auth/SetupLaws.antt =====
-- Who becomes the first operator.
use aliasdeck.Prelude.{
  zero, suc, ◌≤◌, ◌≡◌, inl, inr, true, false, ◌||◌, not, ◌++◌, Option, none, some, length, is_empty,
  Bool-cases, Option-cases, arith,
}
use aliasdeck.Prelude.{◌⊎◌, refl}
use aliasdeck.Prelude.{Result, ok, err, Result-cases}
use aliasdeck.Apply.Atomic.{OsError, not_exist, os_failure, unsafe_destination}
use aliasdeck.Text.{Bytes, codes, same}
use aliasdeck.Text.Equality.{same_iff}
use aliasdeck.Utf8.{trim_space}
use aliasdeck.Auth.Setup.{
  SetupFiles, SetupForm, new_operator, rename_error, consume_credential, check_form,
  check_credential, create_first, locked_setup, complete_setup,
}
use aliasdeck.Auth.Password.{min_admin_password_length}
use aliasdeck.Store.Operators.{Operator}
use aliasdeck.Store.Accounts.{Accounts}

-- The caller knows the credential, where one is required.
pub record HasCredential {W : Type 0} (sha256 : Bytes → Bytes) (files : SetupFiles W)
    (path credential : Bytes) (w : W) : Type 0 where
  pub want : Bytes
  pub kept : files.read_file path w ≡ ok want
  pub equal : sha256 (trim_space credential) ≡ sha256 (trim_space want)

-- The form is filled in.
pub record IsFilled (form : SetupForm) : Type 0 where
  pub named : is_empty (trim_space form.username) ≡ false
  pub long : min_admin_password_length ≤ length form.password
  pub not_blank : is_empty (trim_space form.password) ≡ false
  pub confirmed : form.password ≡ form.confirmation

check_form-IsFilled : (form : SetupForm) → check_form form ≡ none → IsFilled form
unfolding check_form
check_form-IsFilled form h = elim (Bool-cases (same form.password form.confirmation)) [
  | inr e ↦ ground (arith, e)
  | inl e ↦ record {
    named = ground (arith, e);
    long = ground (arith, e);
    not_blank = ground (arith, e);
    confirmed = (same_iff form.password form.confirmation).0 e;
  }
]

check_credential-HasCredential :
    {W : Type 0} (sha256 : Bytes → Bytes) (files : SetupFiles W) (path credential : Bytes) (w : W)
    → check_credential sha256 files path (some credential) w ≡ none
    → HasCredential sha256 files path credential w
unfolding check_credential
check_credential-HasCredential sha256 files path credential w h =
    elim (Result-cases (files.read_file path w)) [
      | inl (x, e) ↦ ground (arith, e)
      | inr (want, e) ↦
          elim (Bool-cases (same (sha256 (trim_space credential)) (sha256 (trim_space want)))) [
            | inr f ↦ ground (arith, e, f)
            | inl f ↦ record {
              want = want;
              kept = e;
              equal = (same_iff (sha256 (trim_space credential)) (sha256 (trim_space want))).0 f;
            }
          ]
    ]

-- The credential was renamed away, unless it was gone, and what it was renamed to was removed.
pub record IsConsumed {W : Type 0} (files : SetupFiles W) (path : Bytes) (w w' : W) : Type 0 where
  pub moved : W
  pub renamed :
      (files.rename path (path ++ codes ".consumed") w ≡ (ok tt, moved))
      ⊎ (files.rename path (path ++ codes ".consumed") w ≡ (err not_exist, moved))
  pub removed : w' ≡ files.remove (path ++ codes ".consumed") moved

rename_error-none :
    (r : Result OsError Unit) → rename_error r ≡ none → (r ≡ ok tt) ⊎ (r ≡ err not_exist)
unfolding rename_error
rename_error-none (ok tt) h = inl refl
rename_error-none (err not_exist) h = inr refl
rename_error-none (err (os_failure m)) h = cc
rename_error-none (err unsafe_destination) h = cc

consume_credential-IsConsumed :
    {W : Type 0} (files : SetupFiles W) (path : Bytes) (w w' : W)
    → consume_credential files path w ≡ (none, w')
    → IsConsumed files path w w'
unfolding consume_credential
consume_credential-IsConsumed files path w w' h =
    let moved = files.rename path (path ++ codes ".consumed") w in
    elim (Option-cases (rename_error moved.0)) [
      | inr (x, e) ↦ ground (arith, e)
      | inl e ↦ record {
        moved = moved.1;
        renamed = elim (rename_error-none moved.0 e) [
          | inl f ↦ inl (λ i. (f i, moved.1))
          | inr f ↦ inr (λ i. (f i, moved.1))
        ];
        removed = ground (arith, e);
      }
    ]

-- The one operator is made, and the credential consumed.
pub record IsFirst {W : Type 0} (hash_password : Bytes → Option Bytes) (files : SetupFiles W)
    (accounts : Accounts W) (path : Bytes) (form : SetupForm) (w w' : W) : Type 0 where
  pub hash : Bytes
  pub operator : Operator
  pub between : W
  pub empty : accounts.count w ≡ ok 0
  pub hashed : hash_password form.password ≡ some hash
  pub made :
      accounts.create (new_operator (trim_space form.username) hash) w ≡ (ok operator, between)
  pub consumed : IsConsumed files path between w'

create_first-IsFirst :
    {W : Type 0} (hash_password : Bytes → Option Bytes) (files : SetupFiles W)
    (accounts : Accounts W) (path : Bytes) (form : SetupForm) (w w' : W)
    → create_first hash_password files accounts path form w ≡ (none, w')
    → IsFirst hash_password files accounts path form w w'
unfolding create_first
create_first-IsFirst hash_password files accounts path form w w' h =
    elim (Result-cases (accounts.count w)) [
      | inl (x, e) ↦ ground (arith, e)
      | inr (zero, e) ↦ elim (Option-cases (hash_password form.password)) [
        | inl f ↦ ground (arith, e, f)
        | inr (hash, f) ↦
            elim (Result-cases
              (accounts.create (new_operator (trim_space form.username) hash) w).0) [
                | inl (x, g) ↦ ground (arith, e, f, g)
                | inr (operator, g) ↦ record {
                  hash = hash;
                  operator = operator;
                  between = (accounts.create (new_operator (trim_space form.username) hash) w).1;
                  empty = e;
                  hashed = f;
                  made = λ i.
                      (g i, (accounts.create (new_operator (trim_space form.username) hash) w).1);
                  consumed =
                      consume_credential-IsConsumed files path
                        (accounts.create (new_operator (trim_space form.username) hash) w).1 w'
                        (ground (arith, e, f, g));
                }
              ]
      ]
      | inr (suc n, e) ↦ ground (arith, e)
    ]

-- If `CompleteSetup` reports no error, then the credential file was there and this call took the lock,
-- the caller knew the credential (by its hash, without the blanks around it), the form had a name and a
-- confirmed password of at least twelve bytes that is not blank, there was no operator, the operator of
-- that name was created with the password's hash, and then the credential file was renamed away, unless it was
-- gone, and what it was renamed to was removed.
pub complete_setup-IsFirst :
    {W : Type 0} (sha256 : Bytes → Bytes) (hash_password : Bytes → Option Bytes)
    (files : SetupFiles W) (accounts : Accounts W) (path credential : Bytes) (form : SetupForm)
    (w w' : W)
    → complete_setup sha256 hash_password files accounts path (some credential) form w ≡ (none, w')
    → (w1 : W) × (w2 : W) × (files.exists path w ≡ true)
      × (files.create_new (path ++ codes ".lock") w ≡ (ok tt, w1))
      × HasCredential sha256 files path credential w1
      × IsFilled form
      × IsFirst hash_password files accounts path form w1 w2
      × (w' ≡ files.remove (path ++ codes ".lock") w2)
unfolding complete_setup locked_setup
complete_setup-IsFirst sha256 hash_password files accounts path credential form w w' h =
    elim (Bool-cases (is_empty path || not (files.exists path w))) [
      | inl e ↦ ground (arith, e)
      | inr e ↦ elim (Result-cases (files.create_new (path ++ codes ".lock") w).0) [
        | inl (x, f) ↦ ground (arith, e, f)
        | inr (tt, f) ↦
            let w1 = (files.create_new (path ++ codes ".lock") w).1 in
            elim (Option-cases (check_credential sha256 files path (some credential) w1)) [
              | inr (x, g) ↦ ground (arith, e, f, g)
              | inl g ↦ elim (Option-cases (check_form form)) [
                | inr (x, k) ↦ ground (arith, e, f, g, k)
                | inl k ↦
                    let done = create_first hash_password files accounts path form w1 in
                    elim (Option-cases done.0) [
                      | inr (x, m) ↦ ground (arith, e, f, g, k, m)
                      | inl m ↦ (
                        w1,
                        done.1,
                        ground (arith, e),
                        λ i. (f i, w1),
                        check_credential-HasCredential sha256 files path credential w1 g,
                        check_form-IsFilled form k,
                        create_first-IsFirst hash_password files accounts path form w1 done.1
                            (λ i. (m i, done.1)),
                        ground (arith, e, f, g, k, m),
                      )
                    ]
              ]
            ]
      ]
    ]
