-- ===== src/Phone/Countries.antt =====
-- frontend/src/data/countryCodes.ts: the countries and their dial codes, Spain first.
use tidybridge.Base.{Str, js, String, List, [], ◌∷◌}

pub record CountryCode : Type 0 where
  pub name : Str
  pub iso2 : Str
  pub dial_code : Str

unfoldable pub country : String → String → String → CountryCode
unfolding js
country name iso2 dial_code = record { name = js name; iso2 = js iso2; dial_code = js dial_code }

unfoldable pub country_codes : List CountryCode
unfolding country
country_codes =
    country "Spain" "ES" "+34"
    ∷ country "Afghanistan" "AF" "+93"
    ∷ country "Albania" "AL" "+355"
    ∷ country "Algeria" "DZ" "+213"
    ∷ country "Andorra" "AD" "+376"
    ∷ country "Angola" "AO" "+244"
    ∷ country "Argentina" "AR" "+54"
    ∷ country "Armenia" "AM" "+374"
    ∷ country "Australia" "AU" "+61"
    ∷ country "Austria" "AT" "+43"
    ∷ country "Azerbaijan" "AZ" "+994"
    ∷ country "Bahamas" "BS" "+1242"
    ∷ country "Bahrain" "BH" "+973"
    ∷ country "Bangladesh" "BD" "+880"
    ∷ country "Belarus" "BY" "+375"
    ∷ country "Belgium" "BE" "+32"
    ∷ country "Belize" "BZ" "+501"
    ∷ country "Benin" "BJ" "+229"
    ∷ country "Bolivia" "BO" "+591"
    ∷ country "Bosnia and Herzegovina" "BA" "+387"
    ∷ country "Botswana" "BW" "+267"
    ∷ country "Brazil" "BR" "+55"
    ∷ country "Brunei" "BN" "+673"
    ∷ country "Bulgaria" "BG" "+359"
    ∷ country "Burkina Faso" "BF" "+226"
    ∷ country "Burundi" "BI" "+257"
    ∷ country "Cambodia" "KH" "+855"
    ∷ country "Cameroon" "CM" "+237"
    ∷ country "Canada" "CA" "+1"
    ∷ country "Chad" "TD" "+235"
    ∷ country "Chile" "CL" "+56"
    ∷ country "China" "CN" "+86"
    ∷ country "Colombia" "CO" "+57"
    ∷ country "Costa Rica" "CR" "+506"
    ∷ country "Croatia" "HR" "+385"
    ∷ country "Cuba" "CU" "+53"
    ∷ country "Cyprus" "CY" "+357"
    ∷ country "Czech Republic" "CZ" "+420"
    ∷ country "Denmark" "DK" "+45"
    ∷ country "Dominican Republic" "DO" "+1809"
    ∷ country "Ecuador" "EC" "+593"
    ∷ country "Egypt" "EG" "+20"
    ∷ country "El Salvador" "SV" "+503"
    ∷ country "Estonia" "EE" "+372"
    ∷ country "Ethiopia" "ET" "+251"
    ∷ country "Fiji" "FJ" "+679"
    ∷ country "Finland" "FI" "+358"
    ∷ country "France" "FR" "+33"
    ∷ country "Georgia" "GE" "+995"
    ∷ country "Germany" "DE" "+49"
    ∷ country "Ghana" "GH" "+233"
    ∷ country "Greece" "GR" "+30"
    ∷ country "Guatemala" "GT" "+502"
    ∷ country "Honduras" "HN" "+504"
    ∷ country "Hong Kong" "HK" "+852"
    ∷ country "Hungary" "HU" "+36"
    ∷ country "Iceland" "IS" "+354"
    ∷ country "India" "IN" "+91"
    ∷ country "Indonesia" "ID" "+62"
    ∷ country "Iran" "IR" "+98"
    ∷ country "Iraq" "IQ" "+964"
    ∷ country "Ireland" "IE" "+353"
    ∷ country "Israel" "IL" "+972"
    ∷ country "Italy" "IT" "+39"
    ∷ country "Jamaica" "JM" "+1876"
    ∷ country "Japan" "JP" "+81"
    ∷ country "Jordan" "JO" "+962"
    ∷ country "Kazakhstan" "KZ" "+7"
    ∷ country "Kenya" "KE" "+254"
    ∷ country "Kuwait" "KW" "+965"
    ∷ country "Kyrgyzstan" "KG" "+996"
    ∷ country "Laos" "LA" "+856"
    ∷ country "Latvia" "LV" "+371"
    ∷ country "Lebanon" "LB" "+961"
    ∷ country "Libya" "LY" "+218"
    ∷ country "Liechtenstein" "LI" "+423"
    ∷ country "Lithuania" "LT" "+370"
    ∷ country "Luxembourg" "LU" "+352"
    ∷ country "Malaysia" "MY" "+60"
    ∷ country "Maldives" "MV" "+960"
    ∷ country "Mali" "ML" "+223"
    ∷ country "Malta" "MT" "+356"
    ∷ country "Mexico" "MX" "+52"
    ∷ country "Moldova" "MD" "+373"
    ∷ country "Monaco" "MC" "+377"
    ∷ country "Mongolia" "MN" "+976"
    ∷ country "Montenegro" "ME" "+382"
    ∷ country "Morocco" "MA" "+212"
    ∷ country "Mozambique" "MZ" "+258"
    ∷ country "Myanmar" "MM" "+95"
    ∷ country "Namibia" "NA" "+264"
    ∷ country "Nepal" "NP" "+977"
    ∷ country "Netherlands" "NL" "+31"
    ∷ country "New Zealand" "NZ" "+64"
    ∷ country "Nicaragua" "NI" "+505"
    ∷ country "Nigeria" "NG" "+234"
    ∷ country "North Korea" "KP" "+850"
    ∷ country "North Macedonia" "MK" "+389"
    ∷ country "Norway" "NO" "+47"
    ∷ country "Oman" "OM" "+968"
    ∷ country "Pakistan" "PK" "+92"
    ∷ country "Panama" "PA" "+507"
    ∷ country "Paraguay" "PY" "+595"
    ∷ country "Peru" "PE" "+51"
    ∷ country "Philippines" "PH" "+63"
    ∷ country "Poland" "PL" "+48"
    ∷ country "Portugal" "PT" "+351"
    ∷ country "Qatar" "QA" "+974"
    ∷ country "Romania" "RO" "+40"
    ∷ country "Russia" "RU" "+7"
    ∷ country "Rwanda" "RW" "+250"
    ∷ country "Saudi Arabia" "SA" "+966"
    ∷ country "Senegal" "SN" "+221"
    ∷ country "Serbia" "RS" "+381"
    ∷ country "Singapore" "SG" "+65"
    ∷ country "Slovakia" "SK" "+421"
    ∷ country "Slovenia" "SI" "+386"
    ∷ country "South Africa" "ZA" "+27"
    ∷ country "South Korea" "KR" "+82"
    ∷ country "Sri Lanka" "LK" "+94"
    ∷ country "Sudan" "SD" "+249"
    ∷ country "Sweden" "SE" "+46"
    ∷ country "Switzerland" "CH" "+41"
    ∷ country "Syria" "SY" "+963"
    ∷ country "Taiwan" "TW" "+886"
    ∷ country "Tajikistan" "TJ" "+992"
    ∷ country "Tanzania" "TZ" "+255"
    ∷ country "Thailand" "TH" "+66"
    ∷ country "Tunisia" "TN" "+216"
    ∷ country "Turkey" "TR" "+90"
    ∷ country "Turkmenistan" "TM" "+993"
    ∷ country "Uganda" "UG" "+256"
    ∷ country "Ukraine" "UA" "+380"
    ∷ country "United Arab Emirates" "AE" "+971"
    ∷ country "United Kingdom" "GB" "+44"
    ∷ country "United States" "US" "+1"
    ∷ country "Uruguay" "UY" "+598"
    ∷ country "Uzbekistan" "UZ" "+998"
    ∷ country "Venezuela" "VE" "+58"
    ∷ country "Vietnam" "VN" "+84"
    ∷ country "Yemen" "YE" "+967"
    ∷ country "Zambia" "ZM" "+260"
    ∷ country "Zimbabwe" "ZW" "+263"
    ∷ []
