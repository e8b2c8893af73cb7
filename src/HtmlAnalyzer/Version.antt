-- ===== src/HtmlAnalyzer/Version.antt =====
-- internal/adapters/html_analyzer.go, ExtractHTMLVersion: the first pattern that matches decides.
use svc_web_analyzer.Prelude.{String, Bool, List, [], ◌∷◌, any, if◌then◌else◌}
use svc_web_analyzer.Domain.{HtmlVersion}

abbrev pub html5_pattern : String
html5_pattern = "(?i)<!DOCTYPE\\s+html\\s*>"

abbrev pub html401_patterns : List String
html401_patterns =
    "(?i)<!DOCTYPE\\s+html\\s+PUBLIC\\s+\"-//W3C//DTD\\s+HTML\\s+4\\.01//EN\""
    ∷ "(?i)<!DOCTYPE\\s+html\\s+PUBLIC\\s+\"-//W3C//DTD\\s+HTML\\s+4\\.01\\s+Transitional//EN\""
    ∷ "(?i)<!DOCTYPE\\s+html\\s+PUBLIC\\s+\"-//W3C//DTD\\s+HTML\\s+4\\.01\\s+Frameset//EN\"" ∷ []

abbrev pub xhtml10_patterns : List String
xhtml10_patterns =
    "(?i)<!DOCTYPE\\s+html\\s+PUBLIC\\s+\"-//W3C//DTD\\s+XHTML\\s+1\\.0\\s+Strict//EN\""
    ∷ "(?i)<!DOCTYPE\\s+html\\s+PUBLIC\\s+\"-//W3C//DTD\\s+XHTML\\s+1\\.0\\s+Transitional//EN\""
    ∷ "(?i)<!DOCTYPE\\s+html\\s+PUBLIC\\s+\"-//W3C//DTD\\s+XHTML\\s+1\\.0\\s+Frameset//EN\"" ∷ []

abbrev pub xhtml11_pattern : String
xhtml11_pattern = "(?i)<!DOCTYPE\\s+html\\s+PUBLIC\\s+\"-//W3C//DTD\\s+XHTML\\s+1\\.1//EN\""

abbrev pub xml_decl_pattern : String
xml_decl_pattern = "(?i)<\\?xml\\s+version"

-- `matches pattern text`: a pattern that does not compile matches nothing
abbrev pub version_of : (String → String → Bool) → String → HtmlVersion
version_of matches html =
    if matches html5_pattern html
    then HtmlVersion.html5
    else if any (λ pattern. matches pattern html) html401_patterns
    then HtmlVersion.html401
    else if any (λ pattern. matches pattern html) xhtml10_patterns
    then HtmlVersion.xhtml10
    else if matches xhtml11_pattern html
    then HtmlVersion.xhtml11
    else if matches xml_decl_pattern html
    then HtmlVersion.xhtml10
    else HtmlVersion.unknown

abbrev pub extract_html_version :
    (String → String → Bool) → (String → String) → String → HtmlVersion
extract_html_version matches trim_space html = version_of matches (trim_space html)
