-- ===== src/Spdx/Lists.antt =====
-- src/as-spdx-data.h: the ids of all licenses and license exceptions.
mod First
mod Second
mod Third
mod Fourth
use appstream.Base.{List, [], ◌∷◌, ◌++◌, Bytes, codes}
use appstream.Spdx.Lists.First.{first_ids}
use appstream.Spdx.Lists.Second.{second_ids}
use appstream.Spdx.Lists.Third.{third_ids}
use appstream.Spdx.Lists.Fourth.{fourth_ids}

abbrev pub license_info_list : List Bytes
license_info_list = first_ids ++ second_ids ++ third_ids ++ fourth_ids

abbrev pub exception_info_list : List Bytes
exception_info_list =
    codes "389-exception"
    ∷ codes "Asterisk-exception"
    ∷ codes "Autoconf-exception-2.0"
    ∷ codes "Autoconf-exception-3.0"
    ∷ codes "Autoconf-exception-generic"
    ∷ codes "Autoconf-exception-generic-3.0"
    ∷ codes "Autoconf-exception-macro"
    ∷ codes "Bison-exception-2.2"
    ∷ codes "Bootloader-exception"
    ∷ codes "CLISP-exception-2.0"
    ∷ codes "Classpath-exception-2.0"
    ∷ codes "DigiRule-FOSS-exception"
    ∷ codes "FLTK-exception"
    ∷ codes "Fawkes-Runtime-exception"
    ∷ codes "Font-exception-2.0"
    ∷ codes "GCC-exception-2.0"
    ∷ codes "GCC-exception-3.1"
    ∷ codes "GNAT-exception"
    ∷ codes "GPL-3.0-interface-exception"
    ∷ codes "GPL-3.0-linking-exception"
    ∷ codes "GPL-3.0-linking-source-exception"
    ∷ codes "GPL-CC-1.0"
    ∷ codes "GStreamer-exception-2005"
    ∷ codes "GStreamer-exception-2008"
    ∷ codes "KiCad-libraries-exception"
    ∷ codes "LGPL-3.0-linking-exception"
    ∷ codes "LLGPL"
    ∷ codes "LLVM-exception"
    ∷ codes "LZMA-exception"
    ∷ codes "Libtool-exception"
    ∷ codes "Linux-syscall-note"
    ∷ codes "Nokia-Qt-exception-1.1"
    ∷ codes "OCCT-exception-1.0"
    ∷ codes "OCaml-LGPL-linking-exception"
    ∷ codes "OpenJDK-assembly-exception-1.0"
    ∷ codes "PS-or-PDF-font-exception-20170817"
    ∷ codes "QPL-1.0-INRIA-2004-exception"
    ∷ codes "Qt-GPL-exception-1.0"
    ∷ codes "Qt-LGPL-exception-1.1"
    ∷ codes "Qwt-exception-1.0"
    ∷ codes "SHL-2.0"
    ∷ codes "SHL-2.1"
    ∷ codes "SWI-exception"
    ∷ codes "Swift-exception"
    ∷ codes "UBDL-exception"
    ∷ codes "Universal-FOSS-exception-1.0"
    ∷ codes "WxWindows-exception-3.1"
    ∷ codes "cryptsetup-OpenSSL-exception"
    ∷ codes "eCos-exception-2.0"
    ∷ codes "freertos-exception-2.0"
    ∷ codes "gnu-javamail-exception"
    ∷ codes "i2p-gpl-java-exception"
    ∷ codes "libpri-OpenH323-exception"
    ∷ codes "mif-exception"
    ∷ codes "openvpn-openssl-exception"
    ∷ codes "u-boot-exception-2.0"
    ∷ codes "vsftpd-openssl-exception"
    ∷ codes "x11vnc-openssl-exception"
    ∷ []
