-- ===== src/Spdx/Lists/Third.antt =====
-- src/as-spdx-data.h: the ids of licenses from Knuth-CTAN to PHP-3.01.
use appstream.Base.{List, [], ◌∷◌, Bytes, codes}

abbrev pub third_ids : List Bytes
third_ids =
    codes "Knuth-CTAN"
    ∷ codes "LAL-1.2"
    ∷ codes "LAL-1.3"
    ∷ codes "LGPL-2.0"
    ∷ codes "LGPL-2.0+"
    ∷ codes "LGPL-2.0-only"
    ∷ codes "LGPL-2.0-or-later"
    ∷ codes "LGPL-2.1"
    ∷ codes "LGPL-2.1+"
    ∷ codes "LGPL-2.1-only"
    ∷ codes "LGPL-2.1-or-later"
    ∷ codes "LGPL-3.0"
    ∷ codes "LGPL-3.0+"
    ∷ codes "LGPL-3.0-only"
    ∷ codes "LGPL-3.0-or-later"
    ∷ codes "LGPLLR"
    ∷ codes "LOOP"
    ∷ codes "LPL-1.0"
    ∷ codes "LPL-1.02"
    ∷ codes "LPPL-1.0"
    ∷ codes "LPPL-1.1"
    ∷ codes "LPPL-1.2"
    ∷ codes "LPPL-1.3a"
    ∷ codes "LPPL-1.3c"
    ∷ codes "LZMA-SDK-9.11-to-9.20"
    ∷ codes "LZMA-SDK-9.22"
    ∷ codes "Latex2e"
    ∷ codes "Latex2e-translated-notice"
    ∷ codes "Leptonica"
    ∷ codes "LiLiQ-P-1.1"
    ∷ codes "LiLiQ-R-1.1"
    ∷ codes "LiLiQ-Rplus-1.1"
    ∷ codes "Libpng"
    ∷ codes "Linux-OpenIB"
    ∷ codes "Linux-man-pages-1-para"
    ∷ codes "Linux-man-pages-copyleft"
    ∷ codes "Linux-man-pages-copyleft-2-para"
    ∷ codes "Linux-man-pages-copyleft-var"
    ∷ codes "Lucida-Bitmap-Fonts"
    ∷ codes "MIT"
    ∷ codes "MIT-0"
    ∷ codes "MIT-CMU"
    ∷ codes "MIT-Festival"
    ∷ codes "MIT-Modern-Variant"
    ∷ codes "MIT-Wu"
    ∷ codes "MIT-advertising"
    ∷ codes "MIT-enna"
    ∷ codes "MIT-feh"
    ∷ codes "MIT-open-group"
    ∷ codes "MIT-testregex"
    ∷ codes "MITNFA"
    ∷ codes "MMIXware"
    ∷ codes "MPEG-SSG"
    ∷ codes "MPL-1.0"
    ∷ codes "MPL-1.1"
    ∷ codes "MPL-2.0"
    ∷ codes "MPL-2.0-no-copyleft-exception"
    ∷ codes "MS-LPL"
    ∷ codes "MS-PL"
    ∷ codes "MS-RL"
    ∷ codes "MTLL"
    ∷ codes "MakeIndex"
    ∷ codes "Martin-Birgmeier"
    ∷ codes "McPhee-slideshow"
    ∷ codes "Minpack"
    ∷ codes "MirOS"
    ∷ codes "Motosoto"
    ∷ codes "MulanPSL-1.0"
    ∷ codes "MulanPSL-2.0"
    ∷ codes "Multics"
    ∷ codes "Mup"
    ∷ codes "NAIST-2003"
    ∷ codes "NASA-1.3"
    ∷ codes "NBPL-1.0"
    ∷ codes "NCGL-UK-2.0"
    ∷ codes "NCSA"
    ∷ codes "NGPL"
    ∷ codes "NICTA-1.0"
    ∷ codes "NIST-PD"
    ∷ codes "NIST-PD-fallback"
    ∷ codes "NIST-Software"
    ∷ codes "NLOD-1.0"
    ∷ codes "NLOD-2.0"
    ∷ codes "NLPL"
    ∷ codes "NOSL"
    ∷ codes "NPL-1.0"
    ∷ codes "NPL-1.1"
    ∷ codes "NPOSL-3.0"
    ∷ codes "NRL"
    ∷ codes "NTP"
    ∷ codes "NTP-0"
    ∷ codes "Naumen"
    ∷ codes "Net-SNMP"
    ∷ codes "NetCDF"
    ∷ codes "Newsletr"
    ∷ codes "Nokia"
    ∷ codes "Noweb"
    ∷ codes "Nunit"
    ∷ codes "O-UDA-1.0"
    ∷ codes "OCCT-PL"
    ∷ codes "OCLC-2.0"
    ∷ codes "ODC-By-1.0"
    ∷ codes "ODbL-1.0"
    ∷ codes "OFFIS"
    ∷ codes "OFL-1.0"
    ∷ codes "OFL-1.0-RFN"
    ∷ codes "OFL-1.0-no-RFN"
    ∷ codes "OFL-1.1"
    ∷ codes "OFL-1.1-RFN"
    ∷ codes "OFL-1.1-no-RFN"
    ∷ codes "OGC-1.0"
    ∷ codes "OGDL-Taiwan-1.0"
    ∷ codes "OGL-Canada-2.0"
    ∷ codes "OGL-UK-1.0"
    ∷ codes "OGL-UK-2.0"
    ∷ codes "OGL-UK-3.0"
    ∷ codes "OGTSL"
    ∷ codes "OLDAP-1.1"
    ∷ codes "OLDAP-1.2"
    ∷ codes "OLDAP-1.3"
    ∷ codes "OLDAP-1.4"
    ∷ codes "OLDAP-2.0"
    ∷ codes "OLDAP-2.0.1"
    ∷ codes "OLDAP-2.1"
    ∷ codes "OLDAP-2.2"
    ∷ codes "OLDAP-2.2.1"
    ∷ codes "OLDAP-2.2.2"
    ∷ codes "OLDAP-2.3"
    ∷ codes "OLDAP-2.4"
    ∷ codes "OLDAP-2.5"
    ∷ codes "OLDAP-2.6"
    ∷ codes "OLDAP-2.7"
    ∷ codes "OLDAP-2.8"
    ∷ codes "OLFL-1.3"
    ∷ codes "OML"
    ∷ codes "OPL-1.0"
    ∷ codes "OPL-UK-3.0"
    ∷ codes "OPUBL-1.0"
    ∷ codes "OSET-PL-2.1"
    ∷ codes "OSL-1.0"
    ∷ codes "OSL-1.1"
    ∷ codes "OSL-2.0"
    ∷ codes "OSL-2.1"
    ∷ codes "OSL-3.0"
    ∷ codes "OpenPBS-2.3"
    ∷ codes "OpenSSL"
    ∷ codes "PDDL-1.0"
    ∷ codes "PHP-3.0"
    ∷ codes "PHP-3.01"
    ∷ []
